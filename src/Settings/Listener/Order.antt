-- ===== src/Settings/Listener/Order.antt =====
-- The events of one batch are handled from the last one to the first: an older removal undoes a
-- newer creation, also where other events of the removal stand beside it.
use mathlib.Core.List.{reverse, reverse-append}
use mcshub.Base.{
  ap, ◌≢◌, ◌≡◌, refl, ◌∙◌, true, false, none, some, List, [], ◌∷◌, ◌++◌, ℤ, ℕ, Text, str, text_eq,
  text_eq_refl,
}
use mcshub.Base.Map.{find, erase, find-erase}
use mcshub.Exec.{Exec, Result, ok, err, crash, continue, skip, ◌>>=◌}
use mcshub.ProgArgs.{Arguments}
use mcshub.Settings.{Settings}
use mcshub.Settings.Load.{LogLevel}
use mcshub.Settings.Listener.{
  main_dir, srv_dir, no_mask, Event, Snapshot, WatchCall, remove_watch, Listening, filename,
  published, srv_dir_changed, main_dir_changed, dispatch, on_change, on_changes, on_files,
  main_conf_changed, main_conf, srv_conf, Category,
}
use mcshub.Settings.Yaml.{Yaml}

-- An event on which the handler does nothing, such as the one that tells the parent of a directory that
-- this is gone (`in_delete`), or the end of a watch on a directory.
abbrev pub IsIdle : Event → Type 0
IsIdle e =
    (e.mask.close_write ≡ false)
    × (e.mask.delete_self ≡ false)
    × (e.mask.move_self ≡ false)
    × (e.mask.create ≡ false)
    × (e.mask.moved_to ≡ false)
    × (e.category ≢ srv_conf)

module _ {Node : Type 0} where
  abbrev pub AllIdle : List (Event × Snapshot Node) → Type 0
  AllIdle [] = Unit {0}
  AllIdle ((e, now) ∷ more) = IsIdle e × AllIdle more

-- The directory of a server is removed, and there is a directory of that name again.
abbrev pub removed : Text → Event
removed name = record {
  category = srv_dir;
  path = str "." ∷ name ∷ [];
  subject = [];
  mask = record no_mask { delete_self = true };
}

abbrev pub created : Text → Event
created name = record {
  category = main_dir;
  path = str "." ∷ [];
  subject = name;
  mask = record no_mask { create = true };
}

module _ (y : Yaml) (arguments : Arguments) (serves : arguments.mcsman ≡ true) where
  removed_lem :
      (name : Text) (now : Snapshot y.Node) (s : Listening)
      → srv_dir_changed y arguments (removed name) now name s ≡ (
        ok tt,
        record {
          new_conf = record s.new_conf { servers = erase name s.new_conf.servers };
          calls = s.calls ++ remove_watch (removed name) ∷ [];
        },
      )
  unfolding srv_dir_changed ◌>>=◌
  removed_lem name now s = rw serves refl

  module _ (level : LogLevel → ℤ) (get_nprocs : ℕ) (default_conf : Settings) where
    created_lem :
        (name : Text) (now : Snapshot y.Node) (s : Listening)
        → now.is_directory name ≡ some true
        → text_eq name (str "default") ≡ false
        → text_eq name arguments.confname ≡ false
        → (main_dir_changed y arguments level get_nprocs default_conf (created name) now s).0
          ≡ ok tt
    unfolding main_dir_changed ◌>>=◌
    created_lem name now s dir other nowhere = rw (dir, other, nowhere, serves) refl

    abbrev changes : Settings → List (Event × Snapshot y.Node) → Exec Listening (Unit {0})
    changes c events = on_changes y arguments level get_nprocs default_conf c events

    on_change_idle :
        (c : Settings) (e : Event) (now : Snapshot y.Node) (s : Listening)
        → IsIdle e
        → on_change y arguments level get_nprocs default_conf c (e, now) s ≡ (ok tt, s)
    unfolding on_change dispatch main_conf_changed main_dir_changed srv_dir_changed ◌>>=◌
    on_change_idle c e now s (written, gone, moved, made, came, other) = by_category e.category refl
      where
        by_category :
            (k : Category)
            → e.category ≡ k
            → dispatch y arguments level get_nprocs default_conf k c e now s ≡ (ok tt, s)
        by_category main_conf q = rw (written, gone, moved) refl
        by_category main_dir q = rw (made, came) refl
        by_category srv_conf q = absurd (other q)
        by_category srv_dir q = rw (made, came, gone, moved) refl

    changes-append :
        (c : Settings) (xs ys : List (Event × Snapshot y.Node)) (s t : Listening)
        → changes c xs s ≡ (ok tt, t)
        → changes c (xs ++ ys) s ≡ changes c ys t
    unfolding on_changes ◌>>=◌ skip
    changes-append c [] ys s t e = ap (λ (o : Result (Unit {0}) × Listening). changes c ys o.1) e
    changes-append c (x ∷ xs) ys s t e =
        by_result (on_change y arguments level get_nprocs default_conf c x s).0
          (on_change y arguments level get_nprocs default_conf c x s).1
          (λ v. changes-append c xs ys v t) e
      where
        by_result :
            (r : Result (Unit {0})) (v : Listening)
            → ((w : Listening)
                → changes c xs w ≡ (ok tt, t)
                → changes c (xs ++ ys) w ≡ changes c ys t)
            → continue r (λ _. changes c xs) v ≡ (ok tt, t)
            → continue r (λ _. changes c (xs ++ ys)) v ≡ changes c ys t
        by_result (ok _) v more k = more v k
        by_result (err x) v more k = absurd (cc (ap (λ (o : Result (Unit {0}) × Listening). o.0) k))
        by_result crash v more k = absurd (cc (ap (λ (o : Result (Unit {0}) × Listening). o.0) k))

    -- The newer events are handled first.
    newer_first :
        (c : Settings) (xs ys : List (Event × Snapshot y.Node)) (s t : Listening)
        → changes c (reverse ys) s ≡ (ok tt, t)
        → changes c (reverse (xs ++ ys)) s ≡ changes c (reverse xs) t
    newer_first c xs ys s t e =
        rw (reverse-append xs ys) (changes-append c (reverse ys) (reverse xs) s t e)

    idle_changes :
        (c : Settings) (xs : List (Event × Snapshot y.Node)) (s : Listening)
        → AllIdle xs
        → changes c (reverse xs) s ≡ (ok tt, s)
    unfolding on_changes ◌>>=◌ skip
    idle_changes c [] s h = refl
    idle_changes c ((e, now) ∷ more) s (i, h) =
        newer_first c ((e, now) ∷ []) more s s (idle_changes c more s h)
        ∙ rw (on_change_idle c e now s i) refl

    -- What the batch does, given what its two events do.
    in_batch :
        (c : Settings) (x z : Event × Snapshot y.Node)
        (earlier between : List (Event × Snapshot y.Node)) (s t u : Listening)
        → AllIdle earlier
        → AllIdle between
        → changes c (z ∷ []) s ≡ (ok tt, t)
        → changes c (x ∷ []) t ≡ (ok tt, u)
        → changes c (reverse (earlier ++ (x ∷ (between ++ (z ∷ []))))) s ≡ (ok tt, u)
    in_batch c x z earlier between s t u h k first second =
        newer_first c earlier (x ∷ (between ++ (z ∷ []))) s u (
          newer_first c (x ∷ []) (between ++ (z ∷ [])) s t
            (newer_first c between (z ∷ []) s t first ∙ idle_changes c between t k)
          ∙ second)
        ∙ idle_changes c earlier u h

    -- If mcsman is on and, in one batch of events, the directory of a server other than "default" is
    -- removed and then created again, with only events before and between them on which the handler
    -- does nothing, then the handler returns and the server has no record, though its directory exists.
    pub on_files_recreated :
        (name : Text) (before now : Snapshot y.Node) (c : Settings) (calls : List WatchCall)
        (earlier between : List (Event × Snapshot y.Node))
        → AllIdle earlier
        → AllIdle between
        → now.is_directory name ≡ some true
        → text_eq name (str "default") ≡ false
        → text_eq name arguments.confname ≡ false
        → ((on_files y arguments level get_nprocs default_conf
              (earlier ++ ((removed name, before) ∷ (between ++ ((created name, now) ∷ []))))
              (c, calls)).0
            ≡ ok tt)
          × (find name
                (on_files y arguments level get_nprocs default_conf
                  (earlier ++ ((removed name, before) ∷ (between ++ ((created name, now) ∷ []))))
                  (c, calls)).1.0.servers
              ≡ none)
    unfolding on_files on_changes on_change dispatch filename published ◌>>=◌ skip
    on_files_recreated name before now c calls earlier between h k dir other nowhere =
        let s : Listening = record { new_conf = c; calls = calls } in
        let t =
          (main_dir_changed y arguments level get_nprocs default_conf (created name) now s).1 in
        let u : Listening = record {
          new_conf = record t.new_conf { servers = erase name t.new_conf.servers };
          calls = t.calls ++ remove_watch (removed name) ∷ [];
        } in
        rw
          (in_batch c (removed name, before) (created name, now) earlier between s t u h k
            (rw (created_lem name now s dir other nowhere) refl)
            (rw (removed_lem name before t) refl))
          (refl, find-erase name name t.new_conf.servers ∙ rw (text_eq_refl name) refl)
