-- ===== src/Vtuner/Stream.antt =====
-- The data of a virtual tuner: the frames that vtuner/vtuner_server.c writes to its connection, and
-- the reads of vtuner/vtuner_client.c.
use Prim.Native.Nat.{min}
use webcamd.Prelude.{
  ℕ, zero, suc, ◌+◌, ◌-◌, ◌*◌, ◌/◌, ◌%◌, ◌^◌, Bool, true, false, not, ◌&&◌, ◌||◌, ◌==◌, ltb, leb,
  if◌then◌else◌, Option, none, some, List, [], ◌∷◌, ◌++◌, length, take, drop,
}
use webcamd.Prelude.Stores.{load, store}
use webcamd.Vtuner.Messages.{Memory, read32, vtuner_data_hdr_byteswap}

-- A connection: the bytes that were written to it and not read yet, and how many calls were made. A
-- call of read or write moves as many bytes as it is asked to, at most the number that the parameter
-- `grant` has for it; 0 is an error.
pub record Socket : Type 0 where
  pub pending : List ℕ
  pub served : ℕ

unfoldable pub read_call : (ℕ → ℕ) → ℕ → Socket → List ℕ × Socket
read_call grant n s =
    let k = min (grant s.served) n in
    (take k s.pending, record { pending = drop k s.pending; served = suc s.served })

-- The bytes that were read, and whether all of them were: the code answers their number, or what the
-- last call of read answered. `len` counts those that are left.
unfoldable pub fd_read : (ℕ → ℕ) → ℕ → ℕ → Socket → List ℕ × (Bool × Socket)
unfolding read_call
fd_read grant zero len s = ([], (len == 0, s))
fd_read grant (suc rounds) len s =
    let r = read_call grant len s in
    let rest = fd_read grant rounds (len - length r.0) r.1 in
    if len == 0
    then ([], (true, s))
    else if length r.0 == 0
    then ([], (false, r.1))
    else (r.0 ++ rest.0, rest.1)

-- Every round reads a byte or is the last.
unfoldable pub vtunerc_fd_read : (ℕ → ℕ) → ℕ → Socket → List ℕ × (Bool × Socket)
unfolding fd_read
vtunerc_fd_read grant len s = fd_read grant len len s

abbrev pub vtuner_magic : ℕ
vtuner_magic = 0x5654554e

abbrev pub buffer_max : ℕ
buffer_max = 2 * 65536

-- `buffer` as bytes; `rd_message` says whether the field is 1.
pub record Client : Type 0 where
  pub socket : Socket
  pub buffer : Memory
  pub buffer_off : ℕ
  pub buffer_rem : ℕ
  pub rd_message : Bool

unfoldable pub receive : (ℕ → ℕ) → ℕ → Client → Client × Bool
unfolding vtunerc_fd_read store
receive grant n c =
    let r = vtunerc_fd_read grant n c.socket in
    (record c { socket = r.1.1; buffer = store r.0 0 c.buffer }, r.1.0)

unfoldable pub peer_body : (ℕ → ℕ) → Client → Client × Bool
unfolding receive read32
peer_body grant c =
    let n = read32 c.buffer 4 in
    let r = receive grant n c in
    if leb (2 ^ 31) n || ltb buffer_max n
    then (c, false)
    else if not r.1
    then (r.0, false)
    else (record r.0 { buffer_off = 0; buffer_rem = n; rd_message = false }, true)

unfoldable pub peer_magic : (ℕ → ℕ) → Client → Client × Bool
unfolding peer_body read32 vtuner_data_hdr_byteswap
peer_magic grant c =
    let swapped = record c { buffer = vtuner_data_hdr_byteswap c.buffer } in
    if read32 c.buffer 0 == vtuner_magic
    then peer_body grant c
    else if read32 swapped.buffer 0 == vtuner_magic
    then peer_body grant swapped
    else (swapped, false)

-- The signal to the thread that polls is left out.
unfoldable pub vtunerc_do_peer_read : (ℕ → ℕ) → Client → Client × Bool
unfolding peer_magic receive
vtunerc_do_peer_read grant c =
    let r = receive grant 8 c in
    if not (c.buffer_rem == 0)
    then (c, true)
    else if not r.1
    then (r.0, false)
    else peer_magic grant r.0

-- What a read answers: the bytes that were copied out, or an error of cuse.
pub data ReadAnswer : Type 0 where
  copied : List ℕ → ReadAnswer
  err_signal err_other err_fault err_wouldblock : ReadAnswer

-- A read: whether it does not block, whether the peer has a signal in a round and whether copy_to_user
-- fails, and its length.
pub record Read : Type 0 where
  pub nonblock : Bool
  pub signal : ℕ → Bool
  pub fault : Bool
  pub len : ℕ

unfoldable pub advance : ℕ → Client → Client
advance n c = record c { buffer_off = c.buffer_off + n; buffer_rem = c.buffer_rem - n }

-- From the bytes that are there; `none` where the code goes back to `repeat`.
unfoldable pub copy_out : Read → Client → Client × Option ReadAnswer
unfolding advance load
copy_out q c =
    let delta = if ltb c.buffer_rem q.len then c.buffer_rem else q.len in
    if not (delta == 0) && q.fault
    then (c, some err_fault)
    else if not (delta == 0)
    then (advance delta c, some (copied (load delta c.buffer_off c.buffer)))
    else if q.nonblock
    then (c, some err_wouldblock)
    else (c, none)

unfoldable pub read_turn : (ℕ → ℕ) → Read → ℕ → Client → Client × Option ReadAnswer
unfolding vtunerc_do_peer_read copy_out
read_turn grant q i c =
    let r = if not q.nonblock || c.rd_message then vtunerc_do_peer_read grant c else (c, true) in
    if q.signal i
    then (c, some err_signal)
    else if not r.1
    then (r.0, some err_other)
    else copy_out q r.0

unfoldable pub or_repeat :
    Option ReadAnswer → Client × Option ReadAnswer → Client → Client × Option ReadAnswer
or_repeat none again c = again
or_repeat (some a) again c = (c, some a)

-- `none` when the rounds are over.
unfoldable pub vtunerc_read : (ℕ → ℕ) → Read → ℕ → Client → Client × Option ReadAnswer
unfolding read_turn or_repeat
vtunerc_read grant q zero c = (c, none)
vtunerc_read grant q (suc i) c =
    let r = read_turn grant q i c in or_repeat r.1 (vtunerc_read grant q i r.0) r.0

-- A number of 32 bits as the server stores it, with the lowest byte first or last.
unfoldable pub word32 : Bool → ℕ → List ℕ
word32 true n = n % 256 ∷ n / 256 % 256 ∷ n / 256 / 256 % 256 ∷ n / 256 / 256 / 256 % 256 ∷ []
word32 false n = n / 256 / 256 / 256 % 256 ∷ n / 256 / 256 % 256 ∷ n / 256 % 256 ∷ n % 256 ∷ []

unfoldable pub header : Bool → ℕ → List ℕ
unfolding word32
header little n = word32 little vtuner_magic ++ word32 little n

-- The bytes of one turn of vtuners_writer_thread, for the `len` bytes that linux_read answered.
unfoldable pub vtuners_frame : Bool → List ℕ → List ℕ
unfolding header
vtuners_frame little bs = if length bs == 0 then [] else header little (length bs) ++ bs

-- What vtuners_write has written, whether it was everything, and the number of the next call.
unfoldable pub vtuners_write : (ℕ → ℕ) → ℕ → ℕ → List ℕ → List ℕ × (Bool × ℕ)
vtuners_write grant zero turn bs = ([], (length bs == 0, turn))
vtuners_write grant (suc rounds) turn bs =
    let k = min (grant turn) (length bs) in
    let rest = vtuners_write grant rounds (suc turn) (drop k bs) in
    if length bs == 0
    then ([], (true, turn))
    else if k == 0
    then ([], (false, suc turn))
    else (take k bs ++ rest.0, rest.1)

-- What linux_read answered to the server, and whether the server has the lowest byte first.
pub record Chunk : Type 0 where
  pub little : Bool
  pub bytes : List ℕ

-- What the writer thread has written when linux_read has given these chunks. It stops at an error.
unfoldable pub vtuners_writer : (ℕ → ℕ) → ℕ → List Chunk → List ℕ
unfolding vtuners_write vtuners_frame
vtuners_writer grant turn [] = []
vtuners_writer grant turn (c ∷ cs) =
    let f = vtuners_frame c.little c.bytes in
    let w = vtuners_write grant (length f) turn f in
    let rest = vtuners_writer grant w.1.1 cs in if w.1.0 then w.0 ++ rest else w.0
