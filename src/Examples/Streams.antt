-- ===== src/Examples/Streams.antt =====
-- Tests of the data of a virtual tuner.
use webcamd.Prelude.{ℕ, ◌≡◌, true, false, List, [], ◌∷◌, refl, arith}
use webcamd.Vtuner.Stream.{Chunk, Client, Read, vtuners_writer, vtunerc_read}
use webcamd.Vtuner.Chunks.{payload, AreSent, Delivers, Copies}
use webcamd.Vtuner.Delivery.{reads, RunContinues, vtunerc_read-Copies, reads-Delivers}

-- The server writes three bytes at a time, and the client gets five at most.
abbrev chunks : List Chunk
chunks =
    record { little = true; bytes = 1 ∷ 2 ∷ 3 ∷ [] }
    ∷ record { little = true; bytes = [] }
    ∷ record { little = false; bytes = 4 ∷ 5 ∷ [] }
    ∷ []

abbrev written : List ℕ
written = vtuners_writer (λ i. 3) 0 chunks

abbrev fresh : Client
fresh = record {
  socket = record { pending = written; served = 0 };
  buffer = λ i. 0;
  buffer_off = 0;
  buffer_rem = 0;
  rd_message = false;
}

abbrev blocking : ℕ → Read
blocking n = record { nonblock = false; signal = λ i. false; fault = false; len = n }

abbrev polled : Read
polled = record { nonblock = true; signal = λ i. false; fault = false; len = 9 }

abbrev calls : List (Read × ℕ)
calls =
    (polled, 1)
    ∷ (blocking 2, 1)
    ∷ (record (blocking 7) { fault = true }, 1)
    ∷ (blocking 7, 1)
    ∷ (blocking 7, 1)
    ∷ (blocking 7, 1)
    ∷ []

all_read : (reads (λ i. 5) calls fresh).0 ≡ 1 ∷ 2 ∷ 3 ∷ 4 ∷ 5 ∷ []
unfolding reads vtunerc_read vtuners_writer
all_read = refl

chunks-AreSent : AreSent chunks
unfolding AreSent
chunks-AreSent = (omega arith, (omega arith, (omega arith, tt)))

fresh-Delivers : Delivers fresh (payload chunks)
unfolding Delivers vtuners_writer
fresh-Delivers = (chunks, (refl, ((omega arith, (omega arith, (omega arith, tt))), refl)))

reads-Delivers_example : RunContinues (payload chunks) (reads (λ i. 5) calls fresh)
reads-Delivers_example =
    reads-Delivers (λ i. 3) (λ i. 5) (λ i. omega arith) (λ i. omega arith) 0 chunks calls fresh
      chunks-AreSent refl refl

vtunerc_read-Copies_example : Copies (vtunerc_read (λ i. 5) (blocking 2) 1 fresh)
unfolding payload
vtunerc_read-Copies_example =
    vtunerc_read-Copies (λ i. 5) (λ i. omega arith) (blocking 2) 0 fresh (payload chunks) refl refl
      refl (omega arith) fresh-Delivers (omega arith)
