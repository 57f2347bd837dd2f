-- ===== src/Settings/Listener/Kept.antt =====
-- The listener keeps a safe configuration in force.
use mathlib.Core.List.{reverse}
use mcshub.Base.{◌≢◌, refl, Option, none, some, List, [], ◌∷◌, ℤ, ℕ, Text}
use mcshub.Exec.{
  Exec, Result, ok, err, crash, bad_request, paket_error, dns_error, system_error, illegal_state,
  other_exception, yaml_exception, config_exception, throw, skip, handle,
}
use mcshub.Exec.Rules.{
  Keeps-pure, Keeps-throw, Keeps-crashed, Keeps-gets, Keeps-modify, Keeps-skip, Keeps-bind,
}
use mcshub.Exec.Guards.{Guards, Keeps-Guards, Guards-bind, Guards-if, catch_yaml, rethrown}
use mcshub.ProgArgs.{Arguments}
use mcshub.Settings.{Settings}
use mcshub.Settings.Load.{LogLevel}
use mcshub.Settings.Listener.{
  Category, main_conf, main_dir, srv_conf, srv_dir, Event, Snapshot, WatchCall, Listening, in_new,
  call, filename, before_last, checked, published, add_mcsman, forget, load_server_file,
  srv_conf_changed, srv_conf_named, srv_dir_changed, main_conf_changed, main_dir_changed, dispatch,
  on_change, on_changes, on_files,
}
use mcshub.Settings.Reload.{load_named-IsSafe, load_all_conf-IsSafe}
use mcshub.Settings.Safe.{IsSafe, converted-IsSafe, load_settings-IsSafe}
use mcshub.Settings.Yaml.{Yaml}

abbrev Good : Listening → Type 0
Good s = IsSafe s.new_conf

handled-Guards :
    {S : Type 0} (Holds : S → Type 0) (r : Result (Unit {0})) (s : S)
    → (r ≢ err config_exception → Holds s)
    → (handle r rethrown s).0 ≢ err config_exception
    → Holds (handle r rethrown s).1
unfolding throw skip
handled-Guards Holds (ok _) s h e = h (λ r. cc)
handled-Guards Holds (err (bad_request x)) s h e = h (λ r. cc)
handled-Guards Holds (err paket_error) s h e = h (λ r. cc)
handled-Guards Holds (err dns_error) s h e = h (λ r. cc)
handled-Guards Holds (err system_error) s h e = h (λ r. cc)
handled-Guards Holds (err illegal_state) s h e = h (λ r. cc)
handled-Guards Holds (err other_exception) s h e = h (λ r. cc)
handled-Guards Holds (err yaml_exception) s h e = h (λ r. cc)
handled-Guards Holds (err config_exception) s h e = absurd (e refl)
handled-Guards Holds crash s h e = h (λ r. cc)

-- A YAML exception that is caught may leave half of a file's settings, but safe ones.
Guards-catch_yaml :
    {S : Type 0} {Holds : S → Type 0} (act : Exec S (Unit {0}))
    → Guards Holds act
    → Guards Holds (catch_yaml act)
unfolding catch_yaml
Guards-catch_yaml {Holds} act g = record {
  at = λ s p. handled-Guards Holds (act s).0 (act s).1 (g.at s p);
}

in_new-Good : {A : Type 0} (m : Exec Settings A) → Guards IsSafe m → Guards Good (in_new m)
in_new-Good m g = record { at = λ s h e. g.at s.new_conf h e }

call-Good : (w : WatchCall) → Guards Good (call w)
unfolding call
call-Good w = Keeps-Guards _ (Keeps-modify _ (λ s h. h))

skipped : {S : Type 0} {Holds : S → Type 0} → Guards Holds skip
skipped = Keeps-Guards _ Keeps-skip

checked-Good : {A : Type 0} (o : Option A) → Guards Good (checked o)
unfolding checked
checked-Good none = Keeps-Guards _ (Keeps-throw _)
checked-Good (some a) = Keeps-Guards _ (Keeps-pure a)

forget-IsSafe : (name : Text) → Guards IsSafe (forget name)
unfolding forget
forget-IsSafe name = Keeps-Guards _ (Keeps-modify _ (λ c h. h))

published-IsSafe :
    (c : Settings) (o : Result (Unit {0}) × Listening)
    → IsSafe c
    → (o.0 ≢ err config_exception → Good o.1)
    → IsSafe (published c o).1.0
unfolding published
published-IsSafe c (ok _, s) h g = g (λ r. cc)
published-IsSafe c (err e, s) h g = h
published-IsSafe c (crash, s) h g = h

module _ (y : Yaml) (arguments : Arguments) where
  add_mcsman-IsSafe : (name : Text) → Guards IsSafe (add_mcsman arguments name)
  unfolding add_mcsman
  add_mcsman-IsSafe name = Guards-if _ _ _ (Keeps-Guards _ (Keeps-modify _ (λ c h. h))) skipped

  load_server_file-IsSafe :
      (name : Text) (parsed : Option y.Node)
      → Guards IsSafe (load_server_file y arguments name parsed)
  unfolding load_server_file
  load_server_file-IsSafe name parsed =
      Guards-bind _ _ (Keeps-Guards _ (Keeps-gets _)) λ distributed.
        Guards-if _ _ _
          (Guards-catch_yaml _ (
            Keeps-Guards _ (
              Keeps-bind _ _ (converted-IsSafe parsed)
                λ node. load_named-IsSafe y arguments name node)))
          skipped

  srv_conf-Good :
      (old : Settings) (e : Event) (now : Snapshot y.Node) (name : Text)
      → Guards Good (srv_conf_changed y arguments old e now name)
  unfolding srv_conf_changed
  srv_conf-Good old e now name =
      Guards-bind _ _
        (Guards-if _ _ _
          (Guards-bind _ _ (in_new-Good _ (forget-IsSafe name)) λ _.
            Guards-bind _ _ (Guards-if _ _ _ (in_new-Good _ (add_mcsman-IsSafe name)) skipped)
              λ _. call-Good _)
          skipped)
        λ _. Guards-if _ _ _ (in_new-Good _ (load_server_file-IsSafe name _)) skipped

  srv_conf_named-Good :
      (old : Settings) (e : Event) (now : Snapshot y.Node) (name : Option Text)
      → Guards Good (srv_conf_named y arguments old e now name)
  unfolding srv_conf_named
  srv_conf_named-Good old e now none = Keeps-Guards _ Keeps-crashed
  srv_conf_named-Good old e now (some name) = srv_conf-Good old e now name

  srv_dir-Good :
      (e : Event) (now : Snapshot y.Node) (name : Text)
      → Guards Good (srv_dir_changed y arguments e now name)
  unfolding srv_dir_changed
  srv_dir-Good e now name =
      Guards-bind _ _
        (Guards-if _ _ _
          (Guards-if _ _ _
            (Guards-bind _ _ (in_new-Good _ (load_server_file-IsSafe name _)) λ _. call-Good _)
            skipped)
          skipped)
        λ _.
          Guards-if _ _ _
            (Guards-bind _ _ (Guards-if _ _ _ (in_new-Good _ (forget-IsSafe name)) skipped)
              λ _. call-Good _)
            skipped

  module _ (level : LogLevel → ℤ) (get_nprocs : ℕ) (default_conf : Settings)
      (h : IsSafe default_conf) where
    main_conf-Good :
        (e : Event) (now : Snapshot y.Node)
        → Guards Good (main_conf_changed y arguments level get_nprocs default_conf e now)
    unfolding main_conf_changed
    main_conf-Good e now =
        Guards-bind _ _
          (Guards-if _ _ _
            (in_new-Good _ (
              Guards-catch_yaml _ (
                Guards-bind _ _ (Keeps-Guards _ (Keeps-modify _ (λ c k. h)))
                  λ _. load_all_conf-IsSafe y arguments level get_nprocs now.files)))
            skipped)
          λ _. Guards-if _ _ _ (call-Good _) skipped

    main_dir-Good :
        (e : Event) (now : Snapshot y.Node)
        → Guards Good (main_dir_changed y arguments level get_nprocs default_conf e now)
    unfolding main_dir_changed
    main_dir-Good e now =
        Guards-if _ _ _
          (Guards-bind _ _ (checked-Good _) λ found.
            Guards-bind _ _
              (Guards-if _ _ _
                (Guards-bind _ _ (in_new-Good _ (add_mcsman-IsSafe _)) λ _. call-Good _) skipped)
              λ _.
                Guards-if _ _ _
                  (Guards-bind _ _
                    (in_new-Good _ (
                      Guards-catch_yaml _ (
                        Guards-bind _ _ (Keeps-Guards _ (converted-IsSafe _))
                          λ node. load_settings-IsSafe y arguments level get_nprocs node)))
                    λ _. call-Good _)
                  skipped)
          skipped

    dispatch-Good :
        (k : Category) (old : Settings) (e : Event) (now : Snapshot y.Node)
        → Guards Good (dispatch y arguments level get_nprocs default_conf k old e now)
    unfolding dispatch
    dispatch-Good main_conf old e now = main_conf-Good e now
    dispatch-Good main_dir old e now = main_dir-Good e now
    dispatch-Good srv_dir old e now = srv_dir-Good e now (filename e.path)
    dispatch-Good srv_conf old e now = srv_conf_named-Good old e now (before_last e.path)

    on_changes-Good :
        (old : Settings) (es : List (Event × Snapshot y.Node))
        → Guards Good (on_changes y arguments level get_nprocs default_conf old es)
    unfolding on_changes on_change
    on_changes-Good old [] = skipped
    on_changes-Good old ((e, now) ∷ more) =
        Guards-bind _ _ (dispatch-Good e.category old e now) λ _. on_changes-Good old more

    -- If `default_conf` and the configuration in force are safe (the domain is well formed, and the
    -- maximal packet size not negative), the configuration in force after the handler of file events
    -- is safe, whatever the events and the files, and whatever exception ends the handler.
    pub on_files-IsSafe :
        (events : List (Event × Snapshot y.Node)) (c : Settings) (calls : List WatchCall)
        → IsSafe c
        → IsSafe (on_files y arguments level get_nprocs default_conf events (c, calls)).1.0
    unfolding on_files
    on_files-IsSafe events c calls k =
        published-IsSafe c _ k
          ((on_changes-Good c (reverse events)).at (record { new_conf = c; calls = calls }) k)
