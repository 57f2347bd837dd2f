-- ===== src/PingTool/Main/Served.antt =====
-- What the ping tool prints when a server answers.
use mcshub.Sclient.{Sclient}
