-- ===== src/PingTool/Main/Runs.antt =====
-- What a run of the ping tool prints and returns.
use mcshub.Base.{
  ◌≡◌, ◌≢◌, refl, ℕ, Bool, true, false, ◌||◌, Option, none, some, List, [], ◌∷◌, ◌++◌,
  if◌then◌else◌, Text, str, text_eq,
}
use mcshub.Exec.{Exec, Error, Result, ok, err, crash}
use mcshub.PingTool.{HostInfo, host_info}
use mcshub.PingTool.Main.{
  Action, status, ping, line, usage, Run, succeed, fail, host_error, entry, reported, try_entry,
  run_action, run_one, main,
}
use mcshub.Sclient.{Network}

append-ne-nil : (s : Text) (c : ℕ) (t : Text) → s ++ c ∷ t ≢ []
append-ne-nil [] c t e = cc
append-ne-nil (x ∷ s) c t e = cc

complaint_ne : (s u : Text) → line s ++ u ≢ []
complaint_ne [] u e = cc
complaint_ne (c ∷ s) u e = cc

module _ {net : Network} where
  -- A run returns 0 with output and no complaint, or 1 with a complaint and no output, or does not
  -- return, and has printed and complained of nothing: `entry`, for the host and the action that it is
  -- given, stops at a failed `assert`, or its loop of reads has not ended, as where the server closes
  -- the connection before a packet is whole.
  pub data Ends (fuel : ℕ) (r : Run net) (out : Result ℕ × Run net) : Type 0 where
    success :
        (s : Text)
        → out.0 ≡ ok 0
        → out.1.out ≡ r.out ++ s
        → out.1.errors ≡ r.errors
        → Ends fuel r out
    failure :
        (s : Text)
        → out.0 ≡ ok 1
        → out.1.out ≡ r.out
        → out.1.errors ≡ r.errors ++ s
        → s ≢ []
        → Ends fuel r out
    no_return :
        (host : HostInfo) (act : Action)
        → (entry fuel host act r).0 ≡ crash
        → out.0 ≡ crash
        → out.1.out ≡ r.out
        → out.1.errors ≡ r.errors
        → Ends fuel r out

  module _ (build : Text) (what : Error → Text) where
    Ends-if :
        (fuel : ℕ) (b : Bool) (m n : Exec (Run net) ℕ) (r : Run net)
        → Ends fuel r (m r)
        → Ends fuel r (n r)
        → Ends fuel r ((if b then m else n) r)
    Ends-if fuel true m n r h k = h
    Ends-if fuel false m n r h k = k

    Ends-fail : (fuel : ℕ) (s : Text) (r : Run net) → s ≢ [] → Ends fuel r (fail s r)
    unfolding fail
    Ends-fail fuel s r some_text = failure s refl refl refl some_text

    Ends-succeed : (fuel : ℕ) (s : Text) (r : Run net) → Ends fuel r (succeed s r)
    unfolding succeed
    Ends-succeed fuel s r = success s refl refl refl

    Ends-reported :
        (fuel : ℕ) (host : HostInfo) (act : Action) (o : Result Text × net.World) (r : Run net)
        → (entry fuel host act r).0 ≡ o.0
        → Ends fuel r (reported build what o r)
    unfolding reported
    Ends-reported fuel host act (ok text, w) r e = success text refl refl refl
    Ends-reported fuel host act (err x, w) r e =
        failure (line (what x)) refl refl refl (append-ne-nil (what x) 10 [])
    Ends-reported fuel host act (crash, w) r e = no_return host act e refl refl refl

    Ends-try :
        (fuel : ℕ) (host : Option HostInfo) (act : Action) (r : Run net)
        → Ends fuel r (try_entry build what fuel host act r)
    unfolding try_entry
    Ends-try fuel none act r = Ends-fail fuel (line host_error) r (append-ne-nil host_error 10 [])
    Ends-try fuel (some host) act r = Ends-reported fuel host act (entry fuel host act r) r refl

    -- Whatever the arguments, the network and the server do, the ping tool returns 0, has printed some
    -- text and complained of nothing, or it returns 1, has complained and printed nothing, or it does not
    -- return and has printed and complained of nothing, since it stops at a failed `assert` or its loop
    -- of reads has not ended; no exception leaves it.
    pub main-Ends :
        (fuel : ℕ) (prog : Text) (args : List Text) (r : Run net)
        → Ends fuel r (main build what fuel prog args r)
    unfolding main run_one run_action
    main-Ends fuel prog [] r =
        Ends-fail fuel _ r (complaint_ne (str "1 argument required at least") (usage prog))
    main-Ends fuel prog (opt ∷ []) r =
        Ends-if fuel (text_eq opt (str "-v") || text_eq opt (str "--version")) _ _ r
          (Ends-succeed fuel _ r)
          (Ends-if fuel (text_eq opt (str "-h") || text_eq opt (str "--help")) _ _ r
            (Ends-succeed fuel _ r) (Ends-try fuel (host_info opt) status r))
    main-Ends fuel prog (address ∷ opt ∷ []) r =
        Ends-if fuel (text_eq opt (str "status")) _ _ r (Ends-try fuel (host_info address) status r)
          (Ends-if fuel (text_eq opt (str "ping")) _ _ r (Ends-try fuel (host_info address) ping r)
            (Ends-fail fuel _ r
              (complaint_ne (str "only status and ping actions supported") (usage prog))))
    main-Ends fuel prog (a ∷ b ∷ c ∷ more) r =
        Ends-fail fuel _ r (complaint_ne (str "maximum 2 arguments are allowed") (usage prog))
