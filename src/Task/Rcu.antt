-- ===== src/Task/Rcu.antt =====
-- The RCU callbacks of kernel/linux_task.c: a list through `next` in the order of the last call
-- first, and the thread that runs it.
use webcamd.Prelude.{
  ℕ, zero, suc, ◌≡◌, Bool, true, false, ◌==◌, if◌then◌else◌, Option, none, some, List, [], ◌∷◌,
  ◌++◌, length, refl, ap, ◌∙◌, sym, subst, arith,
}
use webcamd.Tailq.{mem, IsNodup}

-- `rcu_head`, and `next` and `func` of each `struct rcu_head`.
pub record Rcu : Type 0 where
  pub head : Option ℕ
  pub next : ℕ → Option ℕ
  pub func : ℕ → ℕ

unfoldable pub set_next : ℕ → Option ℕ → (ℕ → Option ℕ) → ℕ → Option ℕ
set_next h v next u = if h == u then v else next u

unfoldable pub is_null : Option ℕ → Bool
is_null none = true
is_null (some u) = false

unfoldable pub call_rcu : ℕ → ℕ → Rcu → Rcu
call_rcu h f s =
    if is_null (s.next h)
    then record {
      head = some h;
      next = set_next h s.head s.next;
      func = λ u. if h == u then f else s.func u;
    }
    else s

-- One turn of `rcu_exec`, with the head whose function it calls and that function. The functions
-- free what contains the head, and are taken to leave the list alone.
unfoldable pub rcu_turn : Rcu → Option ℕ → Rcu × List (ℕ × ℕ)
rcu_turn s none = (s, [])
rcu_turn s (some t) =
    (record s { head = s.next t; next = set_next t none s.next }, (t, s.func t) ∷ [])

unfoldable pub rcu_exec : ℕ → Rcu → Rcu × List (ℕ × ℕ)
rcu_exec zero s = (s, [])
rcu_exec (suc n) s =
    let (s', ran) = rcu_turn s s.head in let (s'', ran') = rcu_exec n s' in (s'', ran ++ ran')

abbrev pub Chain : (ℕ → Option ℕ) → Option ℕ → List ℕ → Type 0
Chain next head [] = head ≡ none
Chain next head (t ∷ ts) = (head ≡ some t) × Chain next (next t) ts

-- The list holds `ts`, each once, and the heads outside have no next one.
pub record IsRcu (s : Rcu) (ts : List ℕ) : Type 0 where
  pub chain : Chain s.next s.head ts
  pub nodup : IsNodup ts
  pub idle : (u : ℕ) → mem u ts ≡ false → s.next u ≡ none

Chain-ext :
    (next next' : ℕ → Option ℕ) (head : Option ℕ) (ts : List ℕ)
    → ((u : ℕ) → mem u ts ≡ true → next u ≡ next' u)
    → Chain next head ts
    → Chain next' head ts
Chain-ext next next' head [] e c = c
Chain-ext next next' head (t ∷ ts) e (c, cs) = (
  c,
  subst (λ h. Chain next' h ts) (e t (ground arith))
      (Chain-ext next next' (next t) ts (λ u m. e u (ground (arith, m))) cs),
)

exec_once :
    (s : Rcu) (t : ℕ) (ts : List ℕ)
    → IsRcu s (t ∷ ts)
    → (rcu_turn s s.head
        ≡ (record s { head = s.next t; next = set_next t none s.next }, (t, s.func t) ∷ []))
      × IsRcu (record s { head = s.next t; next = set_next t none s.next }) ts
unfolding rcu_turn set_next
exec_once s t ts r =
    let (c, cs) = r.chain in
    let (n, ns) = r.nodup in
    (
      ap (rcu_turn s) c,
      record {
        chain =
            Chain-ext s.next (set_next t none s.next) (s.next t) ts (λ u m. ground (arith, m, n))
              cs;
        nodup = ns;
        idle = λ u m. ground (arith, m, r.idle u);
      },
    )

abbrev pub runs : (ℕ → ℕ) → List ℕ → List (ℕ × ℕ)
runs func [] = []
runs func (t ∷ ts) = (t, func t) ∷ runs func ts

-- The thread calls the function of every head in the list once, in the order of the list, and then
-- the list is empty.
pub rcu_exec-list :
    (ts : List ℕ) (s : Rcu)
    → IsRcu s ts
    → ((rcu_exec (length ts) s).1 ≡ runs s.func ts) × IsRcu (rcu_exec (length ts) s).0 []
unfolding rcu_exec
rcu_exec-list [] s r = (refl, r)
rcu_exec-list (t ∷ ts) s r =
    let (e, r') = exec_once s t ts r in
    let (f, g) =
      rcu_exec-list ts (record s { head = s.next t; next = set_next t none s.next }) r' in
    (
      ap (λ r. r.1 ++ (rcu_exec (length ts) r.0).1) e ∙ ap (λ l. (t, s.func t) ∷ l) f,
      subst (λ r. IsRcu (rcu_exec (length ts) r.0).0 []) (sym e) g,
    )

abbrev pushed : ℕ → ℕ → Rcu → Rcu
pushed h f s = record {
  head = some h;
  next = set_next h s.head s.next;
  func = λ u. if h == u then f else s.func u;
}

call_rcu_lem : (h f : ℕ) (s : Rcu) → s.next h ≡ none → call_rcu h f s ≡ pushed h f s
unfolding call_rcu is_null
call_rcu_lem h f s e = ap (λ o. if is_null o then pushed h f s else s) e

pushed-IsRcu :
    (h f : ℕ) (s : Rcu) (ts : List ℕ)
    → mem h ts ≡ false
    → IsRcu s ts
    → IsRcu (pushed h f s) (h ∷ ts)
unfolding set_next
pushed-IsRcu h f s ts m r = record {
  chain = (
    refl,
    subst (λ hd. Chain (set_next h s.head s.next) hd ts) (ground arith)
        (Chain-ext s.next (set_next h s.head s.next) s.head ts (λ u m'. ground (arith, m, m'))
          r.chain),
  );
  nodup = (m, r.nodup);
  idle = λ u m'. ground (arith, m', r.idle u);
}

-- A head that is not in the list comes in front, with the function of the call.
pub call_rcu-IsRcu :
    (h f : ℕ) (s : Rcu) (ts : List ℕ)
    → mem h ts ≡ false
    → IsRcu s ts
    → IsRcu (call_rcu h f s) (h ∷ ts) × ((call_rcu h f s).func h ≡ f)
call_rcu-IsRcu h f s ts m r =
    let e = call_rcu_lem h f s (r.idle h m) in
    (
      subst (λ s'. IsRcu s' (h ∷ ts)) (sym e) (pushed-IsRcu h f s ts m r),
      ap (λ s'. s'.func h) e ∙ ground arith,
    )

-- Calls of call_rcu, with their heads and functions, the latest first.
unfoldable pub given : List (ℕ × ℕ) → Rcu → Rcu
unfolding call_rcu
given [] s = s
given ((h, f) ∷ cs) s = call_rcu h f (given cs s)

abbrev pub heads : List (ℕ × ℕ) → List ℕ
heads [] = []
heads ((h, f) ∷ cs) = h ∷ heads cs

last_next :
    (next : ℕ → Option ℕ) (head : Option ℕ) (ts : List ℕ) (h : ℕ)
    → Chain next head (ts ++ (h ∷ []))
    → next h ≡ none
last_next next head [] h (c, d) = d
last_next next head (t ∷ ts) h (c, cs) = last_next next (next t) ts h cs

first_func : (h f : ℕ) (func : ℕ → ℕ) → (if h == h then f else func h) ≡ f
first_func h f func = ground arith

-- After a second `call_rcu` for the head that was given to it first, and still waits, the thread
-- calls the function of that head first, and a second time after all the others.
call_rcu_again :
    (h f : ℕ) (s : Rcu) (ts : List ℕ)
    → IsRcu s (ts ++ (h ∷ []))
    → (rcu_exec (suc (length (ts ++ (h ∷ [])))) (call_rcu h f s)).1
      ≡ (h, f) ∷ runs (λ u. if h == u then f else s.func u) (ts ++ (h ∷ []))
unfolding rcu_exec rcu_turn set_next
call_rcu_again h f s ts r =
    let n = last_next s.next s.head ts h r.chain in
    let all = ts ++ (h ∷ []) in
    let s' : Rcu = record {
      head = set_next h s.head s.next h;
      next = set_next h none (set_next h s.head s.next);
      func = λ u. if h == u then f else s.func u;
    } in
    let r' : IsRcu s' all = record {
      chain =
          subst (λ hd. Chain s'.next hd all) (ground arith)
            (Chain-ext s.next s'.next s.head all (λ u m. ground (arith, n)) r.chain);
      nodup = r.nodup;
      idle = λ u m. ground (arith, n, r.idle u m);
    } in
    ap (λ x. (rcu_exec (suc (length all)) x).1) (call_rcu_lem h f s n)
    ∙ ap (λ l. (h, (pushed h f s).func h) ∷ l) (rcu_exec-list all s' r').0
    ∙ ap (λ g. (h, g) ∷ runs s'.func all) (first_func h f s.func)
