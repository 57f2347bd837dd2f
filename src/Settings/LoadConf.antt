-- ===== src/Settings/LoadConf.antt =====
-- The `>>` of the whole configuration, src/settings.cpp.
use mcshub.Base.{ℕ, not, List, [], ◌∷◌, if◌then◌else◌, ℤ, pos, negsuc, Text, str, text_eq}
use mcshub.Base.Map.{assign}
use mcshub.Exec.{Exec, left, config_exception, pure, throw, modify, skip, catch, ◌>>=◌, ◌>>◌}
use mcshub.ProgArgs.{Arguments}
use mcshub.Settings.{Settings}
use mcshub.Settings.Domain.{Checked, accepted, refused, check_domain}
use mcshub.Settings.Load.{LogLevel, str2lvl, default_server_record, in_default, load_server}
use mcshub.Settings.Yaml.{Yaml, converted, with_field}

unfoldable pub store_checked : Checked → Exec Settings (Unit {0})
store_checked (accepted d) = modify (λ c. record c { domain = d })
store_checked (refused e) = throw config_exception

-- `check_domain(conf.domain = …)`: the text is stored before it is checked.
unfoldable pub set_domain : Text → Exec Settings (Unit {0})
unfolding store_checked
set_domain v = do modify (λ c. record c { domain = v }); store_checked (check_domain v)

unfoldable pub set_max_packet_size : ℤ → Exec Settings (Unit {0})
set_max_packet_size v = do
  modify (λ c. record c { max_packet_size = v })
  elim v [ pos n ↦ skip | negsuc n ↦ throw config_exception ]

module _ (y : Yaml) (arguments : Arguments) where
  -- The record is complete before it is stored.
  unfoldable pub load_servers : List (y.Node × y.Node) → Exec Settings (Unit {0})
  load_servers [] = skip
  load_servers ((key, node) ∷ more) = do
    server ← λ c. (left (load_server y arguments node (default_server_record arguments)), c)
    name ← converted (y.as_text key)
    modify (λ c. record c { servers = assign name server c.servers })
    load_servers more

  module _ (level : LogLevel → ℤ) (get_nprocs : ℕ) where
    -- Under the conditions of the source, in its order.
    unfoldable pub load_settings : y.Node → Exec Settings (Unit {0})
    unfolding with_field set_domain set_max_packet_size load_servers
    load_settings node = do
      with_field y node (str "address")
          (λ n. do v ← converted (y.as_text n); modify (λ c. record c { address = v }))
      with_field y node (str "port")
          (λ n. do v ← converted (y.as_uint16 n); modify (λ c. record c { port = v }))
      with_field y node (str "threads") (λ n.
          catch (do v ← converted (y.as_unsigned n); modify (λ c. record c { threads = v }))
            λ e. do
              text ← converted (y.as_text n)
              if text_eq text (str "$cpu")
                  then modify (λ c. record c { threads = get_nprocs })
                  else skip)
      with_field y node (str "max_packet_size")
          (λ n. do v ← converted (y.as_int n); set_max_packet_size v)
      with_field y node (str "timeout")
          (λ n. do v ← converted (y.as_ulong n); modify (λ c. record c { timeout = v }))
      with_field y node (str "log")
          (λ n. do v ← converted (y.as_text n); modify (λ c. record c { log = v }))
      with_field y node (str "verb") (λ n. do
        verb ←
            catch (converted (y.as_int n))
              (λ e. do text ← converted (y.as_text n); l ← str2lvl text; pure (level l))
        modify (λ c. record c { verb = verb }))
      with_field y node (str "distributed")
          (λ n. do v ← converted (y.as_bool n); modify (λ c. record c { distributed = v }))
      with_field y node (str "domain") (λ n. do v ← converted (y.as_text n); set_domain v)
      with_field y node (str "default") (λ n.
          if not (y.is_map n)
          then throw config_exception
          else in_default (load_server y arguments n))
      with_field y node (str "servers")
          (λ n. if not (y.is_map n) then throw config_exception else load_servers (y.items n))
      with_field y node (str "dns_cache")
          (λ n. do v ← converted (y.as_bool n); modify (λ c. record c { dns_cache = v }))
