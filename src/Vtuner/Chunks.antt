-- ===== src/Vtuner/Chunks.antt =====
-- The data that a client has before it.
use webcamd.Prelude.{
  ℕ, zero, suc, ◌+◌, ◌-◌, ◌<◌, ◌≤◌, ◌≡◌, Bool, true, false, not, ◌&&◌, ◌==◌, ltb, if◌then◌else◌,
  Option, none, some, List, [], ◌∷◌, ◌++◌, length, refl, sym, ap, ◌∙◌, arith, append_assoc,
}
use webcamd.Prelude.Stores.{load}
use webcamd.Vtuner.Stream.{
  Chunk, Client, ReadAnswer, copied, err_signal, err_other, err_fault, err_wouldblock, Read,
  buffer_max, vtuners_frame, advance, copy_out,
}

-- The connection, and the data in it. The server reads at most VTUNER_BUFFER_MAX bytes at a time.
unfoldable pub stream : List Chunk → List ℕ
unfolding vtuners_frame
stream [] = []
stream (c ∷ cs) = vtuners_frame c.little c.bytes ++ stream cs

unfoldable pub payload : List Chunk → List ℕ
payload [] = []
payload (c ∷ cs) = c.bytes ++ payload cs

unfoldable pub AreSent : List Chunk → Type 0
AreSent [] = Unit
AreSent (c ∷ cs) = (length c.bytes ≤ buffer_max) × AreSent cs

-- The client has the data `d` before it: in its buffer, and in whole frames in the connection.
unfoldable pub Delivers : Client → List ℕ → Type 0
unfolding load stream payload AreSent
Delivers c d =
    (cs : List Chunk) × ((c.socket.pending ≡ stream cs)
      × (AreSent cs × (load c.buffer_rem c.buffer_off c.buffer ++ payload cs ≡ d)))

-- A call of vtunerc_do_peer_read leaves the data, and succeeds with bytes in the buffer if there are
-- data.
unfoldable pub Fetches : Client × Bool → List ℕ → Type 0
unfolding Delivers
Fetches r d = Delivers r.0 d × (0 < length d → (r.1 ≡ true) × (0 < r.0.buffer_rem))

-- The bytes that a call has copied out.
unfoldable pub data_of : Option ReadAnswer → List ℕ
data_of none = []
data_of (some (copied bs)) = bs
data_of (some err_signal) = []
data_of (some err_other) = []
data_of (some err_fault) = []
data_of (some err_wouldblock) = []

load-add : (a b o : ℕ) (m : ℕ → ℕ) → load (a + b) o m ≡ load a o m ++ load b (o + a) m
unfolding load
load-add zero b o m = ap (λ n. load n o m) (omega arith) ∙ ap (λ n. load b n m) (omega arith)
load-add (suc a) b o m =
    let e : suc a + b ≡ suc (a + b) = omega arith in
    let f : o + 1 + a ≡ o + suc a = omega arith in
    ap (λ n. load n o m) e
    ∙ ap (λ l. m o ∷ l) (load-add a b (o + 1) m ∙ ap (λ n. load a (o + 1) m ++ load b n m) f)

pub length-load : (n o : ℕ) (m : ℕ → ℕ) → length (load n o m) ≡ n
unfolding load
length-load zero o m = refl
length-load (suc n) o m = ap suc (length-load n (o + 1) m)

-- What a call has copied out and what the client has before it then are the data from before.
unfoldable pub Continues : List ℕ → Client × Option ReadAnswer → Type 0
unfolding data_of Delivers
Continues d r = (e : List ℕ) × ((data_of r.1 ++ e ≡ d) × Delivers r.0 e)

pub if-Continues :
    (b : Bool) (d : List ℕ) (p q : Client × Option ReadAnswer)
    → Continues d p
    → Continues d q
    → Continues d (if b then p else q)
if-Continues true d p q h k = h
if-Continues false d p q h k = k

-- A call answers some bytes.
unfoldable pub Copies : Client × Option ReadAnswer → Type 0
Copies r = (bs : List ℕ) × ((r.1 ≡ some (copied bs)) × (0 < length bs))

-- Copying out moves bytes from what is left to the answer.
pub advance-Continues :
    (n : ℕ) (c : Client) (d : List ℕ)
    → n ≤ c.buffer_rem
    → Delivers c d
    → Continues d (advance n c, some (copied (load n c.buffer_off c.buffer)))
unfolding Continues Delivers data_of advance
advance-Continues n c d l (cs, (p, (a, e))) =
    let b = load (c.buffer_rem - n) (c.buffer_off + n) c.buffer in
    let rem : n + (c.buffer_rem - n) ≡ c.buffer_rem = omega (arith, l) in
    (
      b ++ payload cs,
      (
        sym (append_assoc (load n c.buffer_off c.buffer) b (payload cs))
            ∙ ap (λ x. x ++ payload cs) (sym (load-add n (c.buffer_rem - n) c.buffer_off c.buffer))
            ∙ ap (λ m. load m c.buffer_off c.buffer ++ payload cs) rem
            ∙ e,
        (cs, (p, (a, refl))),
      ),
    )

pub copy_out-Continues :
    (q : Read) (c : Client) (d : List ℕ) → Delivers c d → Continues d (copy_out q c)
unfolding copy_out Continues data_of
copy_out-Continues q c d h =
    let n = if ltb c.buffer_rem q.len then c.buffer_rem else q.len in
    let copies = advance-Continues n c d (ground arith) h in
    if-Continues (not (n == 0) && q.fault) d (c, some err_fault) _ (d, (refl, h))
      (if-Continues (not (n == 0)) d _ _ copies (
        if-Continues q.nonblock d (c, some err_wouldblock) (c, none) (d, (refl, h)) (d, (refl, h))))

pub copy_out-Copies :
    (q : Read) (c : Client) → q.fault ≡ false → 0 < q.len → 0 < c.buffer_rem → Copies (copy_out q c)
unfolding copy_out Copies
copy_out-Copies q c f l r =
    let n = if ltb c.buffer_rem q.len then c.buffer_rem else q.len in
    let more : (n == 0) ≡ false = ground (arith, l, r) in
    let positive : 0 < n = ground (arith, l, r) in
    rw (f, more)
      (
        load n c.buffer_off c.buffer,
        (refl, omega (arith, length-load n c.buffer_off c.buffer, positive)),
      )
