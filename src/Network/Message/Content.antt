-- ===== src/Network/Message/Content.antt =====
-- What a message holds.
mod Tests
use native.Mathlib.Nat.{mod-eq_of_lt}
use libcppx.Base.{
  ℕ, zero, suc, ◌+◌, ◌-◌, ◌^◌, ◌%◌, ◌≤◌, ◌<◌, ◌≡◌, Bool, true, false, ◌==◌, refl, ap, ◌∙◌, arith,
  List, [], ◌∷◌, ◌++◌, length,
}
use libcppx.Network.Receive.{Bytes, slice, store}
use libcppx.Network.Receive.Slices.{slice-add, slice_same, store_before, slice-store}
use libcppx.Network.Message.{Message, append, acquire, release, content}

-- Append puts the bytes behind those that the message holds, whose number stays below `2 ^ 32`, and
-- leaves the memory of those as it is.
pub content-append :
    (bytes : List ℕ) (m : Message)
    → m.size + length bytes < 2 ^ 32
    → (content (append bytes m) ≡ content m ++ bytes)
      × ((i : ℕ) → i < m.size → (append bytes m).block i ≡ m.block i)
unfolding append
content-append bytes m small =
    let sum : (m.size + length bytes) % 2 ^ 32 ≡ m.size + length bytes = mod-eq_of_lt small in
    let at : 0 + m.size ≡ m.size = omega arith in
    let after = store m.block m.size bytes in
    let before =
      slice_same after m.block 0 0 m.size
        (λ i lt. store_before m.block m.size bytes (0 + i) (omega arith)) in
    (
      rw
          (
            sum,
            slice-add after 0 m.size (length bytes),
            at,
            slice-store m.block m.size bytes,
            before,
          )
          refl,
      store_before m.block m.size bytes,
    )
