-- ===== src/Sclient/Written.antt =====
-- `write_paket`: one packet is sent as a whole.
use mcshub.Base.{◌≡◌, refl, ◌+◌, ◌^◌, ◌<◌, some, length, ℤ, pos, Text}
use mcshub.Paket.{PaketType}
use mcshub.Sclient.{Network, Sclient, write, written_paket, write_paket}
use mcshub.Sclient.Loops.{Reliable}
use mcshub.Sclient.Sending.{Written, write-Written}
use mcshub.Sclient.Frames.{eq_self}

module _ {net : Network} (law : Reliable net) {P : Type 0} (type : PaketType P) where
  -- The bytes of a packet, its head and its size included.
  pub record IsWritten (id : ℤ) (paket : P) (bytes : Text) : Type 0 where
    pub counted :
        type.size paket + net.size_varint id + net.size_varint (pos (type.size paket))
        ≡ length bytes
    pub encoded : type.write paket (length bytes) ≡ some bytes
    pub small : length bytes < 2 ^ 64

  written_lem :
      (bytes : Text) (c : Sclient net)
      → written_paket type (length bytes) (some bytes) c ≡ write bytes c
  unfolding written_paket
  written_lem bytes c = rw (eq_self (length bytes)) refl

  pub write_paket-Written :
      (id : ℤ) (paket : P) (bytes : Text) (c : Sclient net)
      → IsWritten id paket bytes
      → Written law bytes c (write_paket type id paket c)
  unfolding write_paket
  write_paket-Written id paket bytes c w =
      rw (w.counted, w.encoded, written_lem bytes c) (write-Written law bytes c w.small)
