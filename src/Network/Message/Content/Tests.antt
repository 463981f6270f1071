-- ===== src/Network/Message/Content/Tests.antt =====
-- A message of two bytes, and the theorem at it.
use libcppx.Base.{◌+◌, ◌≡◌, refl, true}
use libcppx.Network.Message.{Message, acquire, release}

abbrev two_bytes : Message
two_bytes = record {
  block = λ i. i + 7;
  size = 2;
  offset = 0;
  ref_count = 0;
  capacity = 64;
  connection = 4096;
}

-- The last release deletes the message.
released : release (acquire two_bytes) ≡ (true, two_bytes)
unfolding acquire release
released = refl
