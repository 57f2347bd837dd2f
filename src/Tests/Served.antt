-- ===== src/Tests/Served.antt =====
-- Two runs of the ping tool against a server that answers.
use mcshub.Base.{refl, arith, [], ◌∷◌, ◌++◌, pos, str}
use mcshub.PingTool.{HostInfo}
use mcshub.PingTool.Main.{Run}
use mcshub.PingTool.Main.Server.{Serves}
use mcshub.Sclient.{hello}
use mcshub.Tests.Client.{test_net, test_law, test_frame, test_IsFrame, test_IsWritten}

abbrev served_run : Run test_net
served_run = record {
  world = record { coming = test_frame ++ (test_frame ++ 9 ∷ []); gone = []; clock = 1 };
  out = [];
  errors = [];
}

abbrev served_host : HostInfo
served_host = record { host = str "a"; port = str "25565" }

abbrev served : Serves test_law 2 served_host served_run.world
served = record {
  conns = (str "a", str "25565") ∷ [];
  found = served_run.world;
  joined = served_run.world;
  asked = served_run.world;
  port = 25565;
  resolved = refl;
  opened = refl;
  known = refl;
  hello_bytes = test_frame;
  request_bytes = test_frame;
  ping_bytes = λ payload. test_frame;
  hello_written = test_IsWritten (pos 0) (hello (str "a") 25565 (pos 1));
  request_written = test_IsWritten (pos 0) (record {});
  ping_written = λ payload. test_IsWritten (pos 1) (record { payload = payload });
  status_frame = test_frame;
  pong_frame = test_frame;
  rest = 9 ∷ [];
  status_head = record { consumed = 1; size = pos 2; id = pos 0 };
  pong_head = record { consumed = 1; size = pos 2; id = pos 0 };
  status_framed = test_IsFrame;
  pong_framed = test_IsFrame;
  status_enough = omega arith;
  pong_enough = omega arith;
  coming = refl;
  status_parsed = refl;
  pong_parsed = λ payload. refl;
}
