-- ===== src/Settings/Listener/Alone.antt =====
-- What happens to one server's files concerns that server's record alone.
use mcshub.Base.{
  ◌≡◌, ◌≢◌, refl, ◌∙◌, ◌⊎◌, arith, false, Option, none, some, [], ℤ, ℕ, Text, text_eq, text_eq_iff,
  Bool-cases, inl, inr,
}
use mcshub.Base.Map.{find, assign, erase, find-assign, find-erase}
use mcshub.Exec.{Exec, yaml_exception}
use mcshub.Exec.Rules.{
  Keeps, Keeps-pure, Keeps-throw, Keeps-gets, Keeps-modify, Keeps-skip, Keeps-if, Keeps-bind,
  Keeps-catch,
}
use mcshub.Exec.Guards.{catch_yaml, rethrown}
use mcshub.ProgArgs.{Arguments}
use mcshub.Settings.{ServerRecord, Settings}
use mcshub.Settings.Load.{LogLevel}
use mcshub.Settings.LoadAll.{load_found, load_named}
use mcshub.Settings.Listener.{
  Category, main_conf, main_dir, srv_conf, srv_dir, Event, Snapshot, WatchCall, Listening, in_new,
  call, filename, before_last, add_mcsman, forget, load_server_file, srv_conf_changed,
  srv_conf_named, srv_dir_changed, dispatch, on_change,
}
use mcshub.Settings.Yaml.{Yaml, converted}

-- The server whose file or directory the event is about.
pub data Concerns (e : Event) (name : Text) : Type 0 where
  file : e.category ≡ srv_conf → before_last e.path ≡ some name → Concerns e name
  directory : e.category ≡ srv_dir → filename e.path ≡ name → Concerns e name

-- The record of `j`, and all that is no record of a server, are those of `c`.
abbrev pub SameFor : Text → Settings → Settings → Type 0
SameFor j c d =
    (find j d.servers ≡ find j c.servers) × (record d { servers = [] } ≡ record c { servers = [] })

text_eq-false : (a b : Text) → a ≢ b → text_eq a b ≡ false
text_eq-false a b h = elim (Bool-cases (text_eq a b)) [
  | inl e ↦ absurd (h ((text_eq_iff a b).0 e))
  | inr e ↦ e
]

Keeps-converted : {S A : Type 0} {Holds : S → Type 0} (o : Option A) → Keeps Holds (converted o)
unfolding converted
Keeps-converted none = Keeps-throw _
Keeps-converted (some a) = Keeps-pure a

Keeps-rethrown :
    {S : Type 0} {Holds : S → Type 0} (act : Exec S (Unit {0}))
    → Keeps Holds act
    → Keeps Holds (catch_yaml act)
unfolding catch_yaml
Keeps-rethrown {Holds} act k = Keeps-catch act rethrown k λ e.
    elim e as (λ x. Keeps Holds (rethrown x)) [
      | yaml_exception ↦ Keeps-skip
      | other ↦ Keeps-throw other
    ]

module _ (j name : Text) (c : Settings) (apart : name ≢ j) where
  store-SameFor :
      (server : ServerRecord) (d : Settings)
      → SameFor j c d
      → SameFor j c (record d { servers = assign name server d.servers })
  store-SameFor server d h =
      (find-assign name j server d.servers ∙ rw (text_eq-false name j apart) (h.0), h.1)

  erase-SameFor :
      (d : Settings) → SameFor j c d → SameFor j c (record d { servers = erase name d.servers })
  erase-SameFor d h = (find-erase name j d.servers ∙ rw (text_eq-false name j apart) (h.0), h.1)

  forget-SameFor : Keeps (SameFor j c) (forget name)
  unfolding forget
  forget-SameFor = Keeps-modify _ erase-SameFor

  Keeps-in_new :
      {A : Type 0} (m : Exec Settings A)
      → Keeps (SameFor j c) m
      → Keeps (λ (s : Listening). SameFor j c s.new_conf) (in_new m)
  Keeps-in_new m k = record { at = λ s h. k.at s.new_conf h }

  call-SameFor : (w : WatchCall) → Keeps (λ (s : Listening). SameFor j c s.new_conf) (call w)
  unfolding call
  call-SameFor w = Keeps-modify _ (λ s h. h)

  module _ (y : Yaml) (arguments : Arguments) where
    add_mcsman-SameFor : Keeps (SameFor j c) (add_mcsman arguments name)
    unfolding add_mcsman
    add_mcsman-SameFor = Keeps-if _ _ _ (Keeps-modify _ (store-SameFor _)) Keeps-skip

    load_found-SameFor :
        (node : y.Node) (found : Option ServerRecord)
        → Keeps (SameFor j c) (load_found y arguments name node found)
    unfolding load_found
    load_found-SameFor node (some server) = record { at = λ d h. store-SameFor _ d h }
    load_found-SameFor node none =
        Keeps-bind _ _ (record { at = λ d h. h }) λ server. Keeps-modify _ (store-SameFor server)

    load_named-SameFor : (node : y.Node) → Keeps (SameFor j c) (load_named y arguments name node)
    unfolding load_named
    load_named-SameFor node = record {
      at = λ d. (load_found-SameFor node (find name d.servers)).at d;
    }

    load_server_file-SameFor :
        (parsed : Option y.Node) → Keeps (SameFor j c) (load_server_file y arguments name parsed)
    unfolding load_server_file
    load_server_file-SameFor parsed = Keeps-bind _ _ (Keeps-gets _) λ distributed.
        Keeps-if _ _ _
          (Keeps-rethrown _
            (Keeps-bind _ _ (Keeps-converted parsed) λ node. load_named-SameFor node))
          Keeps-skip

    srv_conf-SameFor :
        (old : Settings) (e : Event) (now : Snapshot y.Node)
        → Keeps
            (λ (s : Listening). SameFor j c s.new_conf)
            (srv_conf_changed y arguments old e now name)
    unfolding srv_conf_changed
    srv_conf-SameFor old e now =
        Keeps-bind _ _
          (Keeps-if _ _ _
            (Keeps-bind _ _ (Keeps-in_new _ forget-SameFor) λ _.
              Keeps-bind _ _ (Keeps-if _ _ _ (Keeps-in_new _ add_mcsman-SameFor) Keeps-skip)
                λ _. call-SameFor _)
            Keeps-skip)
          λ _. Keeps-if _ _ _ (Keeps-in_new _ (load_server_file-SameFor _)) Keeps-skip

    srv_dir-SameFor :
        (e : Event) (now : Snapshot y.Node)
        → Keeps (λ (s : Listening). SameFor j c s.new_conf) (srv_dir_changed y arguments e now name)
    unfolding srv_dir_changed
    srv_dir-SameFor e now =
        Keeps-bind _ _
          (Keeps-if _ _ _
            (Keeps-if _ _ _
              (Keeps-bind _ _ (Keeps-in_new _ (load_server_file-SameFor _)) λ _. call-SameFor _)
              Keeps-skip)
            Keeps-skip)
          λ _.
            Keeps-if _ _ _
              (Keeps-bind _ _ (Keeps-if _ _ _ (Keeps-in_new _ forget-SameFor) Keeps-skip)
                λ _. call-SameFor _)
              Keeps-skip

module _ (y : Yaml) (arguments : Arguments) (level : LogLevel → ℤ) (get_nprocs : ℕ)
    (default_conf : Settings) where
  dispatch-SameFor :
      (k : Category) (old : Settings) (e : Event) (now : Snapshot y.Node) (name j : Text)
      (s : Listening)
      → ((k ≡ srv_conf) × (before_last e.path ≡ some name))
        ⊎ ((k ≡ srv_dir) × (filename e.path ≡ name))
      → name ≢ j
      → SameFor j s.new_conf
          (dispatch y arguments level get_nprocs default_conf k old e now s).1.new_conf
  unfolding dispatch
  dispatch-SameFor main_conf old e now name j s h apart = absurd (ground arith)
  dispatch-SameFor main_dir old e now name j s h apart = absurd (ground arith)
  dispatch-SameFor srv_conf old e now name j s (inl h) apart =
      rw (h.1, srv_conf_named)
        ((srv_conf-SameFor j name s.new_conf apart y arguments old e now).at s (refl, refl))
  dispatch-SameFor srv_conf old e now name j s (inr h) apart = absurd (ground arith)
  dispatch-SameFor srv_dir old e now name j s (inl h) apart = absurd (ground arith)
  dispatch-SameFor srv_dir old e now name j s (inr h) apart =
      rw (h.1) ((srv_dir-SameFor j name s.new_conf apart y arguments e now).at s (refl, refl))

  -- An event on the file or the directory of one server changes neither another server's record nor
  -- any setting beside the servers, whatever the files hold, and whatever exception ends its handling.
  pub on_change-SameFor :
      (old : Settings) (e : Event) (now : Snapshot y.Node) (name j : Text) (s : Listening)
      → Concerns e name
      → name ≢ j
      → SameFor j s.new_conf
          (on_change y arguments level get_nprocs default_conf old (e, now) s).1.new_conf
  unfolding on_change
  on_change-SameFor old e now name j s (file k p) apart =
      dispatch-SameFor e.category old e now name j s (inl (k, p)) apart
  on_change-SameFor old e now name j s (directory k p) apart =
      dispatch-SameFor e.category old e now name j s (inr (k, p)) apart
