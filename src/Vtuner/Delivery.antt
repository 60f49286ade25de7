-- ===== src/Vtuner/Delivery.antt =====
-- The reads of a virtual tuner deliver what its server has read from the device.
use webcamd.Prelude.{
  ℕ, zero, suc, ◌<◌, ◌≡◌, Bool, true, false, not, ◌||◌, if◌then◌else◌, Option, none, some, List, [],
  ◌∷◌, ◌++◌, length, refl, ap, ◌∙◌, subst, arith, append_assoc,
}
use webcamd.Prelude.Stores.{load}
use webcamd.Vtuner.Stream.{
  Chunk, vtuners_write, vtuners_writer, Client, ReadAnswer, err_signal, err_other, Read,
  vtuners_frame, vtunerc_do_peer_read, copy_out, read_turn, or_repeat, vtunerc_read,
}
use webcamd.Vtuner.Reading.{vtuners_write-all}
use webcamd.Vtuner.Chunks.{
  stream, payload, AreSent, Delivers, Fetches, data_of, Continues, if-Continues, Copies,
  copy_out-Continues, copy_out-Copies,
}
use webcamd.Vtuner.Frames.{peer_read-Fetches}

module _ (grant : ℕ → ℕ) (gives : (i : ℕ) → 0 < grant i) where
  peer_read_if-Delivers :
      (b : Bool) (c : Client) (d : List ℕ)
      → Delivers c d
      → Delivers (if b then vtunerc_do_peer_read grant c else (c, true)).0 d
  unfolding Fetches
  peer_read_if-Delivers true c d h = (peer_read-Fetches grant gives c d h).0
  peer_read_if-Delivers false c d h = h

  read_turn-Continues :
      (q : Read) (i : ℕ) (c : Client) (d : List ℕ)
      → Delivers c d
      → Continues d (read_turn grant q i c)
  unfolding read_turn Continues data_of
  read_turn-Continues q i c d h =
      let b = not q.nonblock || c.rd_message in
      let r = if b then vtunerc_do_peer_read grant c else (c, true) in
      let k = peer_read_if-Delivers b c d h in
      if-Continues (q.signal i) d (c, some err_signal) _ (d, (refl, h))
        (if-Continues (not r.1) d (r.0, some err_other) (copy_out q r.0) (d, (refl, k))
          (copy_out-Continues q r.0 d k))

  turn-Copies :
      (b signal : Bool) (q : Read) (c : Client)
      → b ≡ true
      → signal ≡ false
      → (vtunerc_do_peer_read grant c).1 ≡ true
      → Copies (copy_out q (vtunerc_do_peer_read grant c).0)
      → let r = if b then vtunerc_do_peer_read grant c else (c, true) in
        Copies (
          if signal
          then (c, some err_signal)
          else if not r.1
          then (r.0, some err_other)
          else copy_out q r.0)
  turn-Copies true false q c _ _ ok h = rw ok h
  turn-Copies true true q c b s ok h = absurd (ground (arith, s))
  turn-Copies false signal q c b s ok h = absurd (ground (arith, b))

  read_turn-Copies :
      (q : Read) (i : ℕ) (c : Client) (d : List ℕ)
      → q.nonblock ≡ false
      → q.signal i ≡ false
      → q.fault ≡ false
      → 0 < q.len
      → Delivers c d
      → 0 < length d
      → Copies (read_turn grant q i c)
  unfolding read_turn Fetches
  read_turn-Copies q i c d b s f l h p =
      let (ok, more) = (peer_read-Fetches grant gives c d h).1 p in
      turn-Copies (not q.nonblock || c.rd_message) (q.signal i) q c (ground (arith, b)) s ok
        (copy_out-Copies q (vtunerc_do_peer_read grant c).0 f l more)

  or_repeat-Continues :
      (a : Option ReadAnswer) (d : List ℕ) (c : Client) (again : Client × Option ReadAnswer)
      → Continues d (c, a)
      → ((e : List ℕ) → Delivers c e → Continues e again)
      → Continues d (or_repeat a again c)
  unfolding or_repeat Continues data_of
  or_repeat-Continues none d c again (e, (p, k)) next = subst (λ x. Continues x again) p (next e k)
  or_repeat-Continues (some a) d c again h next = h

  vtunerc_read-Continues :
      (q : Read) (rounds : ℕ) (c : Client) (d : List ℕ)
      → Delivers c d
      → Continues d (vtunerc_read grant q rounds c)
  unfolding vtunerc_read Continues data_of
  vtunerc_read-Continues q zero c d h = (d, (refl, h))
  vtunerc_read-Continues q (suc i) c d h =
      let r = read_turn grant q i c in
      or_repeat-Continues r.1 d r.0 (vtunerc_read grant q i r.0) (read_turn-Continues q i c d h)
        (λ e k. vtunerc_read-Continues q i r.0 e k)

  -- Where the client has data before it, a read that blocks and has room, no signal in its first
  -- round and no fault in its copy answers at least one byte. Every call of read on the connection
  -- moves at least one byte, but for calls at its end.
  pub vtunerc_read-Copies :
      (q : Read) (rounds : ℕ) (c : Client) (d : List ℕ)
      → q.nonblock ≡ false
      → q.signal rounds ≡ false
      → q.fault ≡ false
      → 0 < q.len
      → Delivers c d
      → 0 < length d
      → Copies (vtunerc_read grant q (suc rounds) c)
  unfolding vtunerc_read or_repeat Copies
  vtunerc_read-Copies q i c d b s f l h p =
      let (bs, (e, more)) = read_turn-Copies q i c d b s f l h p in rw e (bs, (refl, more))

-- The answers of a sequence of reads, each with the number of its rounds.
unfoldable pub reads : (ℕ → ℕ) → List (Read × ℕ) → Client → List ℕ × Client
unfolding data_of
reads grant [] c = ([], c)
reads grant ((q, rounds) ∷ qs) c =
    let r = vtunerc_read grant q rounds c in
    let rest = reads grant qs r.0 in (data_of r.1 ++ rest.0, rest.1)

unfoldable pub RunContinues : List ℕ → List ℕ × Client → Type 0
unfolding Delivers
RunContinues d r = (e : List ℕ) × ((r.0 ++ e ≡ d) × Delivers r.1 e)

reads-RunContinues :
    (grant : ℕ → ℕ)
    → ((i : ℕ) → 0 < grant i)
    → (qs : List (Read × ℕ)) (c : Client) (d : List ℕ) → Delivers c d
    → RunContinues d (reads grant qs c)
unfolding reads RunContinues Continues
reads-RunContinues grant gives [] c d h = (d, (refl, h))
reads-RunContinues grant gives ((q, rounds) ∷ qs) c d h =
    let r = vtunerc_read grant q rounds c in
    let (e, (p, k)) = vtunerc_read-Continues grant gives q rounds c d h in
    let (f, (u, l)) = reads-RunContinues grant gives qs r.0 e k in
    (f, (append_assoc (data_of r.1) (reads grant qs r.0).0 f ∙ ap (λ x. data_of r.1 ++ x) u ∙ p, l))

vtuners_writer-stream :
    (out : ℕ → ℕ)
    → ((i : ℕ) → 0 < out i)
    → (turn : ℕ) (cs : List Chunk) → vtuners_writer out turn cs ≡ stream cs
unfolding vtuners_writer stream
vtuners_writer-stream out gives turn [] = refl
vtuners_writer-stream out gives turn (c ∷ cs) =
    let f = vtuners_frame c.little c.bytes in
    let w = vtuners_write out (length f) turn f in
    let (all, ok) = vtuners_write-all out gives (length f) turn f (omega arith) in
    rw ok (
      ap (λ x. x ++ vtuners_writer out w.1.1 cs) all
      ∙ ap (λ x. f ++ x) (vtuners_writer-stream out gives w.1.1 cs))

-- The server has written the data of some frames, each of at most VTUNER_BUFFER_MAX bytes, in either
-- byte order, and the client has read nothing yet. Then any reads of the client, with errors and
-- signals, blocking or not, answer the data in order, without loss or repetition: they are followed
-- by the data that the client has still before it. Every call of read and write on the connection
-- moves at least one byte, but for reads at its end.
pub reads-Delivers :
    (out grant : ℕ → ℕ)
    → ((i : ℕ) → 0 < out i)
    → ((i : ℕ) → 0 < grant i)
    → (turn : ℕ) (cs : List Chunk) (qs : List (Read × ℕ)) (c : Client) → AreSent cs
    → c.buffer_rem ≡ 0
    → c.socket.pending ≡ vtuners_writer out turn cs
    → RunContinues (payload cs) (reads grant qs c)
unfolding Delivers load
reads-Delivers out grant gives_out gives turn cs qs c a z p =
    reads-RunContinues grant gives qs c (payload cs) (
      cs,
      (
        p ∙ vtuners_writer-stream out gives_out turn cs,
        (a, ap (λ n. load n c.buffer_off c.buffer ++ payload cs) z),
      ),
    )
