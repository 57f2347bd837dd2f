-- ===== src/Paket/Ids.antt =====
-- `pakets::ids` of src/mc_pakets.hpp: the packet ids that the code compares.
use mcshub.Base.{ℤ, pos}

abbrev pub request : ℤ
request = pos 0

abbrev pub pingpong : ℤ
pingpong = pos 1
