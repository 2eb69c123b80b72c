-- ===== src/Net/Udp/Demux.antt =====
-- The demultiplexer gives each bound port a queue of its own.
use mkgo.Common.{
  ℕ, zero, suc, ◌+◌, ◌<◌, ◌≤◌, ◌≡◌, ◌≢◌, refl, sym, ap, ◌∙◌, arith, List, [], ◌∷◌, ◌++◌, ◌==◌, inl,
  inr, if◌then◌else◌, Option, none, some, Option-cases,
}
use mkgo.Net.Base.{Result, ok, err}
use mkgo.Net.Udp.{
  UdpDemux, new_udp_demux, UdpDatagram, parse_udp, free_port, bind_port, bind, unbind, handle,
  handle_parsed, push, recv,
}

-- Queues are below `next`, and no two ports share one.
pub record IsSeparate (d : UdpDemux) : Type 0 where
  pub used : (p q : ℕ) → d.ports p ≡ some q → q < d.next
  pub apart : (p p' q : ℕ) → d.ports p ≡ some q → d.ports p' ≡ some q → p ≡ p'

bind_port-IsSeparate :
    (port : ℕ) (o : Option ℕ) (d : UdpDemux) → IsSeparate d → IsSeparate (bind_port port o d).0
unfolding bind_port
bind_port-IsSeparate port (some q) d h = h
bind_port-IsSeparate port none d h = record {
  used = λ p q e. ground (arith, h.used p q);
  apart = λ p p' q e e'. ground (arith, h.apart p p' q, h.used p q, h.used p' q);
}

bind-IsSeparate : (port : ℕ) (d : UdpDemux) → IsSeparate d → IsSeparate (bind port d).0
unfolding bind
bind-IsSeparate port d h =
    let port' = if port == 0 then free_port 16384 49152 d.ports else port in
    bind_port-IsSeparate port' (d.ports port') d h

unbind-IsSeparate : (port : ℕ) (d : UdpDemux) → IsSeparate d → IsSeparate (unbind port d)
unfolding unbind
unbind-IsSeparate port d h = record {
  used = λ p q e. ground (arith, h.used p q);
  apart = λ p p' q e e'. ground (arith, h.apart p p' q);
}

-- The search from `p + 1` on, seen from `p`.
free_port-next :
    (left p : ℕ) (ports : ℕ → Option ℕ)
    → (free_port left (p + 1) ports ≢ 0)
    → ((free_port left (p + 1) ports ≢ 0)
        → (p + 1 ≤ free_port left (p + 1) ports)
          × (free_port left (p + 1) ports < p + 1 + left)
          × (ports (free_port left (p + 1) ports) ≡ none))
    → (p ≤ free_port left (p + 1) ports)
      × (free_port left (p + 1) ports < p + suc left)
      × (ports (free_port left (p + 1) ports) ≡ none)
free_port-next left p ports h ih = let (a, b, c) = ih h in (omega arith, omega arith, c)

-- A port that the search returns is free and in its range.
free_port-is_free :
    (left p : ℕ) (ports : ℕ → Option ℕ)
    → (free_port left p ports ≢ 0)
    → (p ≤ free_port left p ports)
      × (free_port left p ports < p + left)
      × (ports (free_port left p ports) ≡ none)
unfolding free_port
free_port-is_free zero p ports h = absurd (h refl)
free_port-is_free (suc left) p ports h = elim (Option-cases (ports p)) [
  | inl e ↦ ground arith
  | inr (q, e) ↦
      rw e (free_port-next left p ports (rw e at h) (free_port-is_free left (p + 1) ports))
]

-- A datagram for one port leaves the queue of every other port as it was.
handle_isolated :
    (payload : List ℕ) (dg : UdpDatagram) (p q : ℕ) (d : UdpDemux)
    → IsSeparate d
    → parse_udp payload ≡ ok dg
    → d.ports p ≡ some q
    → (handle payload d).queues q
      ≡ (if dg.dst_port == p then d.queues q ++ dg.payload ∷ [] else d.queues q)
unfolding handle
handle_isolated payload dg p q d h e bound = rw e (elim (Option-cases (d.ports dg.dst_port)) [
  | inl gone ↦ ground (arith)
  | inr (r, there) ↦ ground (arith, h.apart dg.dst_port p q)
])

further : (p i : ℕ) → p ≤ i → (p ≡ i → ⊥) → p + 1 ≤ i
further p i lo ne = grind arith

some≢none : {q : ℕ} → some q ≡ none → ⊥
some≢none e = cc

-- A free port within reach is found, or an earlier one.
free_port-ne_zero :
    (left p i : ℕ) (ports : ℕ → Option ℕ)
    → 0 < p
    → p ≤ i
    → i < p + left
    → ports i ≡ none
    → free_port left p ports ≢ 0
unfolding free_port
free_port-ne_zero zero p i ports hp lo hi e = absurd (omega arith)
free_port-ne_zero (suc left) p i ports hp lo hi e = elim (Option-cases (ports p)) [
  | inl free ↦ ground arith
  | inr (q, taken) ↦ rw taken (
      free_port-ne_zero left (p + 1) i ports (omega arith)
        (further p i lo (λ same. some≢none (sym taken ∙ ap ports same ∙ e))) (omega arith) e)
]

-- `Bind(0)` allocates an ephemeral port that was free, with an empty queue, whenever one of the
-- ports from 49152 up is free.
pub bind_ephemeral :
    (i : ℕ) (d : UdpDemux)
    → 49152 ≤ i
    → i < 65536
    → d.ports i ≡ none
    → let (d', q, port) = bind 0 d in
      (49152 ≤ port)
      × (port < 65536)
      × (d.ports port ≡ none)
      × (d'.ports port ≡ some q)
      × (d'.queues q ≡ [])
unfolding bind bind_port
bind_ephemeral i d lo hi free =
    let port = free_port 16384 49152 d.ports in
    let found = free_port-ne_zero 16384 49152 i d.ports (omega arith) lo (omega arith) free in
    let (low, high, is_free) = free_port-is_free 16384 49152 d.ports found in
    rw is_free (low, omega arith, is_free, ground arith, ground arith)

-- What a service can ask of the demultiplexer.
pub data Op : Type 0 where
  bind_op : ℕ → Op
  unbind_op : ℕ → Op
  handle_op : List ℕ → Op
  recv_op : ℕ → Op

unfoldable pub step : Op → UdpDemux → UdpDemux
step (bind_op port) d = (bind port d).0
step (unbind_op port) d = unbind port d
step (handle_op payload) d = handle payload d
step (recv_op q) d = (recv q d).0

unfoldable pub run : List Op → UdpDemux → UdpDemux
run [] d = d
run (op ∷ ops) d = run ops (step op d)

handle_parsed-IsSeparate :
    (r : Result UdpDatagram) (d : UdpDemux) → IsSeparate d → IsSeparate (handle_parsed r d)
unfolding push
handle_parsed-IsSeparate (err e) d h = h
handle_parsed-IsSeparate (ok dg) d h = ground (arith, h)

step-IsSeparate : (op : Op) (d : UdpDemux) → IsSeparate d → IsSeparate (step op d)
unfolding step handle recv
step-IsSeparate (bind_op port) d h = bind-IsSeparate port d h
step-IsSeparate (unbind_op port) d h = unbind-IsSeparate port d h
step-IsSeparate (handle_op payload) d h = handle_parsed-IsSeparate (parse_udp payload) d h
step-IsSeparate (recv_op q) d h = record { used = h.used; apart = h.apart }

run-IsSeparate : (ops : List Op) (d : UdpDemux) → IsSeparate d → IsSeparate (run ops d)
unfolding run
run-IsSeparate [] d h = h
run-IsSeparate (op ∷ ops) d h = run-IsSeparate ops (step op d) (step-IsSeparate op d h)

-- Whatever the calls before, a datagram reaches the queue of its destination port and leaves the
-- queue of every other bound port as it was.
pub demux_isolated :
    (ops : List Op) (payload : List ℕ) (dg : UdpDatagram) (p q : ℕ)
    → parse_udp payload ≡ ok dg
    → (run ops new_udp_demux).ports p ≡ some q
    → let d = run ops new_udp_demux in
      (handle payload d).queues q
      ≡ (if dg.dst_port == p then d.queues q ++ dg.payload ∷ [] else d.queues q)
demux_isolated ops payload dg p q e bound =
    let separate =
      run-IsSeparate ops new_udp_demux (record { used = λ p q e. cc; apart = λ p p' q e e'. cc }) in
    handle_isolated payload dg p q (run ops new_udp_demux) separate e bound
