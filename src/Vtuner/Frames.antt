-- ===== src/Vtuner/Frames.antt =====
-- Frames are read whole.
use webcamd.Prelude.{
  ℕ, ◌^◌, ◌<◌, ◌≤◌, ◌≡◌, Bool, true, false, not, ◌||◌, ◌==◌, ltb, leb, if◌then◌else◌, List, [], ◌∷◌,
  ◌++◌, length, refl, sym, ap, ◌∙◌, subst, arith, append_assoc, Bool-cases, inl, inr, ==_iff,
}
use webcamd.Prelude.Stores.{load, store, load-store}
use webcamd.Vtuner.Messages.{read32, vtuner_data_hdr_byteswap}
use webcamd.Vtuner.Stream.{
  Chunk, Client, vtunerc_fd_read, vtuner_magic, buffer_max, header, vtuners_frame, receive,
  peer_body, peer_magic, vtunerc_do_peer_read,
}
use webcamd.Vtuner.Reading.{fd_read-len, fd_read-none, store-header_little, store-header_big}
use webcamd.Vtuner.Chunks.{stream, payload, AreSent, Delivers, Fetches}

module _ (grant : ℕ → ℕ) (gives : (i : ℕ) → 0 < grant i) where
  peer_body-Fetches :
      (c : Client) (bs : List ℕ) (cs : List Chunk)
      → read32 c.buffer 4 ≡ length bs
      → length bs ≤ buffer_max
      → 0 < length bs
      → c.socket.pending ≡ bs ++ stream cs
      → AreSent cs
      → Fetches (peer_body grant c) (bs ++ payload cs)
  unfolding peer_body receive vtunerc_fd_read Delivers Fetches
  peer_body-Fetches c bs cs e l more p a =
      let (read, (ok, rest)) =
        fd_read-len grant gives (length bs) (length bs) bs (stream cs) c.socket refl (omega arith)
          p in
      let fits : (leb (2 ^ 31) (length bs) || ltb buffer_max (length bs)) ≡ false =
        ground (arith, l) in
      let stored =
        ap (λ x. load (length bs) 0 (store x 0 c.buffer)) read ∙ load-store bs 0 c.buffer in
      rw (e, fits, ok) ((cs, (rest, (a, ap (λ x. x ++ payload cs) stored))), λ _. (refl, more))

  -- A whole frame is read, in either byte order.
  peer_magic-Fetches :
      (c d : Client) (little : Bool) (bs : List ℕ) (cs : List Chunk)
      → d.buffer ≡ store (header little (length bs)) 0 c.buffer
      → length bs ≤ buffer_max
      → 0 < length bs
      → d.socket.pending ≡ bs ++ stream cs
      → AreSent cs
      → Fetches (peer_magic grant d) (bs ++ payload cs)
  unfolding peer_magic
  peer_magic-Fetches c d true bs cs e l more p a =
      let (magic, size) = store-header_little (length bs) c.buffer (omega (arith, l)) in
      let test : (read32 d.buffer 0 == vtuner_magic) ≡ true =
        ap (λ m. read32 m 0 == vtuner_magic) e ∙ ap (λ n. n == vtuner_magic) magic in
      let body = peer_body-Fetches d bs cs (ap (λ m. read32 m 4) e ∙ size) l more p a in
      rw test body
  peer_magic-Fetches c d false bs cs e l more p a =
      let (magic, (again, size)) = store-header_big (length bs) c.buffer (omega (arith, l)) in
      let test : (read32 d.buffer 0 == vtuner_magic) ≡ false =
        ap (λ m. read32 m 0 == vtuner_magic) e ∙ ap (λ n. n == vtuner_magic) magic in
      let retest : (read32 (vtuner_data_hdr_byteswap d.buffer) 0 == vtuner_magic) ≡ true =
        ap (λ m. read32 (vtuner_data_hdr_byteswap m) 0 == vtuner_magic) e
        ∙ ap (λ n. n == vtuner_magic) again in
      let swapped = record d { buffer = vtuner_data_hdr_byteswap d.buffer } in
      let body =
        peer_body-Fetches swapped bs cs (ap (λ m. read32 (vtuner_data_hdr_byteswap m) 4) e ∙ size) l
          more p a in
      rw (test, retest) body

  -- The length of a header.
  length-header : (little : Bool) (n : ℕ) → length (header little n) ≡ 8
  unfolding header
  length-header true n = refl
  length-header false n = refl

  -- What the client does when its buffer is empty.
  next_frame : Client → Client × Bool
  unfolding receive
  next_frame c = let r = receive grant 8 c in if not r.1 then (r.0, false) else peer_magic grant r.0

  vtuners_frame-more :
      (little : Bool) (b : ℕ) (bs : List ℕ)
      → vtuners_frame little (b ∷ bs) ≡ header little (length (b ∷ bs)) ++ (b ∷ bs)
  unfolding vtuners_frame
  vtuners_frame-more little b bs =
      let more : (length (b ∷ bs) == 0) ≡ false = ground arith in rw more refl

  chunk-Fetches :
      (c : Client) (little : Bool) (bs : List ℕ) (cs : List Chunk)
      → length bs ≤ buffer_max
      → AreSent cs
      → c.socket.pending ≡ vtuners_frame little bs ++ stream cs
      → (c.socket.pending ≡ stream cs → Fetches (next_frame c) (payload cs))
      → Fetches (next_frame c) (bs ++ payload cs)
  unfolding next_frame receive vtunerc_fd_read vtuners_frame
  chunk-Fetches c little [] cs l a p next = next p
  chunk-Fetches c little (b ∷ bs) cs l a p next =
      let h = header little (length (b ∷ bs)) in
      let (read, (ok, rest)) =
        fd_read-len grant gives 8 8 h ((b ∷ bs) ++ stream cs) c.socket
          (length-header little (length (b ∷ bs))) (omega arith)
          (p
            ∙ ap (λ x. x ++ stream cs) (vtuners_frame-more little b bs)
            ∙ append_assoc h (b ∷ bs) (stream cs)) in
      rw (next_frame, ok)
        (peer_magic-Fetches c (receive grant 8 c).0 little (b ∷ bs) cs
          (ap (λ x. store x 0 c.buffer) read) l (omega arith) rest a)

  next_frame-Fetches :
      (c : Client) (cs : List Chunk)
      → c.buffer_rem ≡ 0
      → c.socket.pending ≡ stream cs
      → AreSent cs
      → Fetches (next_frame c) (payload cs)
  unfolding next_frame receive vtunerc_fd_read stream payload AreSent Delivers Fetches
  next_frame-Fetches c [] e p a =
      let (read, (ok, rest)) = fd_read-none grant gives 7 8 c.socket (omega arith) p in
      rw (next_frame, ok)
        (
          ([], (rest, (tt, ap (λ n. load n c.buffer_off (receive grant 8 c).0.buffer ++ []) e))),
          λ h. absurd (omega (arith, h)),
        )
  next_frame-Fetches c (x ∷ cs) e p a =
      chunk-Fetches c x.little x.bytes cs a.0 a.1 p (λ q. next_frame-Fetches c cs e q a.1)

  empty-Fetches :
      (c : Client) (d : List ℕ) → c.buffer_rem ≡ 0 → Delivers c d → Fetches (next_frame c) d
  unfolding Delivers load
  empty-Fetches c d z (cs, (p, (a, e))) =
      let left : payload cs ≡ d =
        ap (λ n. load n c.buffer_off c.buffer ++ payload cs) (sym z) ∙ e in
      subst (λ x. Fetches (next_frame c) x) left (next_frame-Fetches c cs z p a)

  pub peer_read-Fetches :
      (c : Client) (d : List ℕ) → Delivers c d → Fetches (vtunerc_do_peer_read grant c) d
  unfolding vtunerc_do_peer_read next_frame Fetches
  peer_read-Fetches c d h = elim (Bool-cases (c.buffer_rem == 0)) [
    | inl e ↦ rw e (empty-Fetches c d ((==_iff c.buffer_rem 0).0 e) h)
    | inr e ↦ rw e (h, λ _. (refl, ground (arith, e)))
  ]
