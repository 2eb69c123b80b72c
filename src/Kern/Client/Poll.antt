-- ===== src/Kern/Client/Poll.antt =====
-- What the polling loop returns.
use mkgo.Common.{
  ℕ, zero, suc, ◌+◌, ◌≤◌, ◌≡◌, ◌≢◌, ◌∙◌, arith, List, length, ltb, ◌==◌, Bool-cases, inl, inr, true,
  false,
}
use mathlib.Core.Path.{subst}
use mkgo.Kern.Frame.{get16}
use mkgo.Kern.Client.{
  Kernel, Received, nothing, bad_handle, datagram, Reply, reply, fail, RpcError, on_received, poll,
}

fail≢reply : {x : RpcError} {b : List ℕ} → fail x ≡ reply b → ⊥
fail≢reply e = cc

matched :
    (d b : List ℕ) (want : ℕ)
    → ltb (length d) 24 ≡ false
    → (get16 d 2 == want) ≡ true
    → reply d ≡ reply b
    → (24 ≤ length b) × (get16 b 2 ≡ want)
matched d b want whole same e =
    let own : (24 ≤ length d) × (get16 d 2 ≡ want) = ground (arith, whole, same) in
    let p : d ≡ b = cc in subst (λ (l : List ℕ). (24 ≤ length l) × (get16 l 2 ≡ want)) p own

more_zero : (m : ℕ) → 0 + suc m ≡ suc m
more_zero m = omega arith

more_suc : (n m : ℕ) → suc n + suc m ≡ suc (n + suc m)
more_suc n m = omega arith

module _ (k : Kernel) where
  open k use {World, port_recv, yield}

  on_received-matches :
      (r : Received) (want : ℕ) (w : World) (rest : World → World × Reply (List ℕ)) (b : List ℕ)
      → ((v : World) → (rest v).1 ≡ reply b → (24 ≤ length b) × (get16 b 2 ≡ want))
      → (on_received k r want w rest).1 ≡ reply b
      → (24 ≤ length b) × (get16 b 2 ≡ want)
  on_received-matches nothing want w rest b h e = h (yield w) e
  on_received-matches bad_handle want w rest b h e = cc
  on_received-matches (datagram d) want w rest b h e = elim (Bool-cases (ltb (length d) 24)) [
    | inl small ↦ absurd (fail≢reply (rw small at e))
    | inr whole ↦ elim (Bool-cases (get16 d 2 == want)) [
      | inl same ↦ matched d b want whole same (rw (whole, same) at e)
      | inr other ↦ h w (rw (whole, other) at e)
    ]
  ]

  -- A reply that the loop returns is a whole header and carries the sequence number asked for.
  pub poll-matches :
      (budget h want : ℕ) (w : World) (b : List ℕ)
      → (poll k budget h want w).1 ≡ reply b
      → (24 ≤ length b) × (get16 b 2 ≡ want)
  unfolding poll
  poll-matches zero h want w b e = absurd (fail≢reply e)
  poll-matches (suc budget) h want w b e =
      let (w', r) = port_recv h w in
      on_received-matches r want w' (λ v. poll k budget h want v) b
        (λ v. poll-matches budget h want v b) e

  -- `n` receives that bring nothing for `want`: an empty queue, where the client yields, or the
  -- reply to another request, which is dropped.
  pub data Waits (h want : ℕ) : ℕ → World → World → Type 0 where
    ready : {w : World} → Waits h want 0 w w
    idle :
        {n : ℕ} {w w' v : World}
        → port_recv h w ≡ (w', nothing)
        → Waits h want n (yield w') v
        → Waits h want (suc n) w v
    stale :
        {n : ℕ} {w w' v : World} (b : List ℕ)
        → port_recv h w ≡ (w', datagram b)
        → 24 ≤ length b
        → get16 b 2 ≢ want
        → Waits h want n w' v
        → Waits h want (suc n) w v

  poll-hit :
      (budget h want : ℕ) (w w' : World) (b : List ℕ)
      → port_recv h w ≡ (w', datagram b)
      → 24 ≤ length b
      → get16 b 2 ≡ want
      → poll k (suc budget) h want w ≡ (w', reply b)
  unfolding poll
  poll-hit budget h want w w' b e l m = rw e (ground arith)

  poll-idle :
      (budget h want : ℕ) (w w' : World)
      → port_recv h w ≡ (w', nothing)
      → poll k (suc budget) h want w ≡ poll k budget h want (yield w')
  unfolding poll
  poll-idle budget h want w w' e = rw e

  poll-stale :
      (budget h want : ℕ) (w w' : World) (b : List ℕ)
      → port_recv h w ≡ (w', datagram b)
      → 24 ≤ length b
      → get16 b 2 ≢ want
      → poll k (suc budget) h want w ≡ poll k budget h want w'
  unfolding poll
  poll-stale budget h want w w' b e l m = rw e (ground arith)

  -- After any number of receives that bring nothing or a whole reply with another sequence number,
  -- fewer than the budget, the polling loop returns the first reply of at least 24 bytes with the
  -- sequence number asked for.
  pub poll-Waits :
      (h want n extra : ℕ) (w v v' : World) (b : List ℕ)
      → Waits h want n w v
      → port_recv h v ≡ (v', datagram b)
      → 24 ≤ length b
      → get16 b 2 ≡ want
      → poll k (n + suc extra) h want w ≡ (v', reply b)
  poll-Waits h want n extra w v v' b ready e l m =
      rw (more_zero extra) (poll-hit extra h want w v' b e l m)
  poll-Waits h want n extra w v v' b (idle {n = n'} {w' = w'} r rest) e l m =
      rw (more_suc n' extra) (
        poll-idle (n' + suc extra) h want w w' r
        ∙ poll-Waits h want n' extra (yield w') v v' b rest e l m)
  poll-Waits h want n extra w v v' b (stale {n = n'} {w' = w'} d r long other rest) e l m =
      rw (more_suc n' extra) (
        poll-stale (n' + suc extra) h want w w' d r long other
        ∙ poll-Waits h want n' extra w' v v' b rest e l m)
