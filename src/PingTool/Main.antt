-- ===== src/PingTool/Main.antt =====
-- `main` and `entry` of src/pingtool.cpp.
pub mod Runs
pub mod Server
pub mod Served
use mcshub.Base.{
  ℕ, suc, Bool, true, false, ◌||◌, Option, none, some, List, [], ◌∷◌, ◌++◌, if◌then◌else◌, Text,
  str, text_eq,
}
use mcshub.Exec.{Exec, Error, Result, ok, err, crash, pure, ◌>>=◌}
use mcshub.Paket.{to_string}
use mcshub.PingTool.{HostInfo, host_info}
use mcshub.Sclient.{Network, Sclient, new_sclient, status_of, ping_now}

pub data Action : Type 0 where
  status ping : Action

abbrev pub line : Text → Text
line s = s ++ 10 ∷ []

unfoldable pub usage : Text → Text
usage prog =
    str "Usage: "
    ++ (prog
        ++ (line (str " <option> | <address[:port] [action]>")
            ++ (line (str "Options:")
                ++ (line (str "  -h, --help     display this help message and exit")
                    ++ (line (str "  -v, --version  print version number and exit")
                        ++ (line (str "Actions:")
                            ++ (line (str "  status         fetch JSON status object")
                                ++ line (str "  ping           ping server"))))))))

-- The system around the tool, and what it has written to the two streams.
pub record Run (net : Network) : Type 0 where
  pub world : net.World
  pub out : Text
  pub errors : Text

-- The message of `host_error`, and the other messages, which are the libraries'.
unfoldable pub host_error : Text
host_error = str "ipv6 square bracket '[' not closed"

module _ {net : Network} where
  unfoldable pub print : Text → Run net → Run net
  print s r = record r { out = r.out ++ s }

  unfoldable pub complain : Text → Run net → Run net
  complain s r = record r { errors = r.errors ++ s }

  -- `EXIT_FAILURE`
  unfoldable pub fail : Text → Exec (Run net) ℕ
  unfolding complain
  fail s r = (ok 1, complain s r)

  unfoldable pub succeed : Text → Exec (Run net) ℕ
  unfolding print
  succeed s r = (ok 0, print s r)

  -- What the chosen action prints.
  unfoldable pub printed : ℕ → Text → Action → Exec (Sclient net) Text
  unfolding status_of ping_now to_string
  printed fuel host status = do res ← status_of fuel host; pure (line res.message)
  printed fuel host ping = do
    res ← status_of fuel host
    time ← ping_now fuel
    pure (line (to_string time ++ str "ms"))

  connected : ℕ → Text → Action → Result (Sclient net) × net.World → Result Text × net.World
  connected fuel host act (ok client, w) =
      ((printed fuel host act client).0, (printed fuel host act client).1.world)
  connected fuel host act (err e, w) = (err e, w)
  connected fuel host act (crash, w) = (crash, w)

  unfoldable pub entry : ℕ → HostInfo → Action → Run net → Result Text × net.World
  unfolding connected printed new_sclient
  entry fuel host act r = connected fuel host.host act (new_sclient host.host host.port r.world)

  module _ (build : Text) (what : Error → Text) where
    -- The end of the `try` block: every exception is reported.
    unfoldable pub reported : Result Text × net.World → Exec (Run net) ℕ
    unfolding print fail
    reported (ok text, w) r = (ok 0, print text (record r { world = w }))
    reported (err e, w) r = fail (line (what e)) (record r { world = w })
    reported (crash, w) r = (crash, record r { world = w })

    unfoldable pub try_entry : ℕ → Option HostInfo → Action → Exec (Run net) ℕ
    unfolding reported entry host_error
    try_entry fuel none act r = fail (line host_error) r
    try_entry fuel (some host) act r = reported (entry fuel host act r) r

    unfoldable pub run_action : ℕ → Text → Text → Text → Exec (Run net) ℕ
    unfolding try_entry usage
    run_action fuel prog address opt =
        if text_eq opt (str "status")
        then try_entry fuel (host_info address) status
        else if text_eq opt (str "ping")
        then try_entry fuel (host_info address) ping
        else fail (line (str "only status and ping actions supported") ++ usage prog)

    unfoldable pub run_one : ℕ → Text → Text → Exec (Run net) ℕ
    unfolding try_entry succeed usage
    run_one fuel prog opt =
        if text_eq opt (str "-v") || text_eq opt (str "--version")
        then succeed (line build)
        else if text_eq opt (str "-h") || text_eq opt (str "--help")
        then succeed (usage prog)
        else try_entry fuel (host_info opt) status

    -- On the arguments behind the program's name.
    unfoldable pub main : ℕ → Text → List Text → Exec (Run net) ℕ
    unfolding run_action run_one usage
    main fuel prog [] = fail (line (str "1 argument required at least") ++ usage prog)
    main fuel prog (opt ∷ []) = run_one fuel prog opt
    main fuel prog (address ∷ opt ∷ []) = run_action fuel prog address opt
    main fuel prog (a ∷ b ∷ c ∷ more) =
        fail (line (str "maximum 2 arguments are allowed") ++ usage prog)
