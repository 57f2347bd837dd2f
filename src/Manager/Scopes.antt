-- ===== src/Manager/Scopes.antt =====
-- The records that the console sets.
use mcshub.Base.{◌≡◌, refl, false, Option, none, some, [], if◌then◌else◌, Text, str, text_eq}
use mcshub.Base.Map.{find, find-assign}
use mcshub.Exec.{ok, modify}
use mcshub.Manager.{RecordForm, special_assign, found_or_new, changed, set_server, set_record}
use mcshub.ProgArgs.{Arguments}
use mcshub.Settings.{ServerRecord, Settings}
use mcshub.Settings.Load.{default_record}

module _ (arguments : Arguments) (form : RecordForm) (c : Settings) where
  -- What `conf default record … set` is to start from: the named server, with its Forge variant, where
  -- there is one, and a server with the default record and no Forge variant where there is none.
  abbrev pub old_server : ServerRecord
  old_server = elim (find form.name c.servers) [
    | none ↦ record { base = default_record arguments; fml = none }
    | some server ↦ server
  ]

  old_server_lem : found_or_new arguments (find form.name c.servers) ≡ old_server
  unfolding found_or_new
  old_server_lem = by_entry (find form.name c.servers)
    where
      by_entry :
          (o : Option ServerRecord)
          → found_or_new arguments o ≡ elim o [
            | none ↦ record { base = default_record arguments; fml = none }
            | some server ↦ server
          ]
      by_entry none = refl
      by_entry (some server) = refl

  -- If the form has a name, then with the type "auto" the named server gets the form's fields and keeps
  -- its Forge variant, with the type "fml" it keeps its fields and gets the form as its Forge variant;
  -- a server that there was not starts from the default record, and the other servers stay.
  pub set_record_lem :
      (j : Text)
      → text_eq form.name [] ≡ false
      → ((set_record arguments (str "auto") form c).0 ≡ ok tt)
        × (find j (set_record arguments (str "auto") form c).1.servers ≡ (
            if text_eq form.name j
            then some (record { base = form.base; fml = old_server.fml })
            else find j c.servers))
        × ((set_record arguments (str "fml") form c).0 ≡ ok tt)
        × (find j (set_record arguments (str "fml") form c).1.servers ≡ (
            if text_eq form.name j
            then some (record { base = old_server.base; fml = some form.base })
            else find j c.servers))
  unfolding set_record set_server changed special_assign text_eq modify
  set_record_lem j named =
      rw (named, old_server_lem)
        (refl, find-assign form.name j _ c.servers, refl, find-assign form.name j _ c.servers)
