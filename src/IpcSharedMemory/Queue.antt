-- ===== src/IpcSharedMemory/Queue.antt =====
-- The ring as a queue of packets: it holds their bytes, one behind the other, and the read
-- semaphore counts them.
use code_knife.Prelude.{
  ℕ, ◌+◌, ◌-◌, ◌%◌, ◌<◌, ◌≡◌, refl, sym, ap, ap₂, ◌∙◌, arith, List, [], ◌∷◌, ◌++◌, length, take,
  drop, length-append, append_assoc, take-append_left, drop-append_left,
}
use code_knife.Memory.{Memory}
use code_knife.IpcPacket.{IpcPacket}
use code_knife.IpcPacket.Wire.{IsSound, wire}
use code_knife.IpcSharedMemory.{Direction, shm_buffer_size, available_space, available_data}
use code_knife.IpcSharedMemory.Ring.{circular, length-circular, circular-append}

-- The bytes of the queued packets.
unfoldable pub stream : List IpcPacket → List ℕ
stream [] = []
stream (p ∷ ps) = wire p ++ stream ps

abbrev pub AllSound : List IpcPacket → Type 0
AllSound [] = Unit {0}
AllSound (p ∷ ps) = IsSound p × AllSound ps

-- A direction that holds the packets ps, the oldest first.
pub record Represents (d : Direction) (ps : List IpcPacket) : Type 0 where
  pub sound : AllSound ps
  pub read_in : d.read_pos < shm_buffer_size
  pub room : length (stream ps) < shm_buffer_size
  pub ahead : d.write_pos ≡ (d.read_pos + length (stream ps)) % shm_buffer_size
  pub held : circular d.buffer d.read_pos (length (stream ps)) ≡ stream ps
  pub counted : d.read_sem ≡ length ps

pub stream-append : (ps qs : List IpcPacket) → stream (ps ++ qs) ≡ stream ps ++ stream qs
unfolding stream
stream-append [] qs = refl
stream-append (p ∷ ps) qs =
    ap (◌++◌ (wire p)) (stream-append ps qs) ∙ sym (append_assoc (wire p) (stream ps) (stream qs))

pub AllSound-append :
    (ps : List IpcPacket) (p : IpcPacket) → AllSound ps → IsSound p → AllSound (ps ++ (p ∷ []))
AllSound-append [] p a s = (s, tt)
AllSound-append (q ∷ ps) p a s = (a.0, AllSound-append ps p a.1 s)

-- The two pieces of a circular read of two pieces.
pub circular_left :
    (m : Memory) (pos : ℕ) (xs ys : List ℕ)
    → circular m pos (length (xs ++ ys)) ≡ xs ++ ys
    → circular m pos (length xs) ≡ xs
circular_left m pos xs ys h =
    sym (take-append_left (circular m pos (length xs)) (circular m (pos + length xs) (length ys)))
    ∙ ap₂ take (length-circular m pos (length xs)) (
        sym (circular-append m pos (length xs) (length ys))
        ∙ ap (circular m pos) (sym (length-append xs ys))
        ∙ h)
    ∙ take-append_left xs ys

pub circular_right :
    (m : Memory) (pos : ℕ) (xs ys : List ℕ)
    → circular m pos (length (xs ++ ys)) ≡ xs ++ ys
    → circular m (pos + length xs) (length ys) ≡ ys
circular_right m pos xs ys h =
    sym (drop-append_left (circular m pos (length xs)) (circular m (pos + length xs) (length ys)))
    ∙ ap₂ drop (length-circular m pos (length xs)) (
        sym (circular-append m pos (length xs) (length ys))
        ∙ ap (circular m pos) (sym (length-append xs ys))
        ∙ h)
    ∙ drop-append_left xs ys

-- The code's measures of room and data, for positions that stand `used` bytes apart.
pub available_space_lem :
    (read_pos used : ℕ)
    → read_pos < shm_buffer_size
    → used < shm_buffer_size
    → available_space ((read_pos + used) % shm_buffer_size) read_pos ≡ shm_buffer_size - used - 1
unfolding available_space
available_space_lem read_pos used h u = ground arith

pub available_data_lem :
    (read_pos used : ℕ)
    → read_pos < shm_buffer_size
    → used < shm_buffer_size
    → available_data ((read_pos + used) % shm_buffer_size) read_pos ≡ used
unfolding available_data
available_data_lem read_pos used h u = ground arith
