-- ===== src/Sim/Steps.antt =====
-- src/sim.rs, SimCluster::step: it never panics, and drives each node by inputs of its own.
use ferrium.Common.{
  ℕ, zero, suc, ◌+◌, ◌≤◌, ◌<◌, Bool, true, false, if◌then◌else◌, Option, none, some, List, [], ◌∷◌,
  length, get_elem?, All, lookup, ◌≡◌, refl, sym, ap, ◌∙◌, arith, Option-cases, inl, inr,
}
use ferrium.Raft.Message.{NodeId}
use ferrium.Raft.Node.{Rand, RaftNode, Envelope}
use ferrium.Raft.Node.Drive.{tick, step, take_ready}
use ferrium.Raft.Run.{Event, ticked, received, drained, react}
use ferrium.Storage.Apply.{Codec}
use ferrium.Sim.{
  modify_at, SimCluster, Parcel, and_also, deliverable, apply_stores, post, Drained, drain_node,
  drain_loop, tick_loop, deliver_loop, advance,
}
use ferrium.Sim.Panics.{Gives, Gives-bind, Gives-map, Gives-if, get_elem?-Gives}
use ferrium.Sim.Posting.{HasSize, apply_stores-HasSize, IsPosted, post-IsPosted}
use ferrium.Sim.Evolution.{
  Modified, modify_at-Modified, Evolves, Evolves-refl, Evolves-trans, Evolves-one, IsLocal,
}

-- A cluster whose parts have one size, and whose index knows its nodes.
pub record IsCluster {G : Type 0} (c : SimCluster G) : Type 0 where
  pub stores_size : length c.stores ≡ length c.nodes
  pub alive_size : length c.alive ≡ length c.nodes
  pub connected_size : length c.connected ≡ length c.nodes
  pub ids_size : length c.ids ≡ length c.nodes
  pub known :
      (i : ℕ) (id : NodeId)
      → get_elem? c.ids i ≡ some id
      → Gives (λ j. Unit {0}) (lookup id c.id_to_idx)
  pub in_range : (id : NodeId) (j : ℕ) → lookup id c.id_to_idx ≡ some j → j < length c.nodes

module _ (R : Rand) (C : Codec) (c : SimCluster R.StdRng) (v : IsCluster c) where
  open R use {StdRng}

  abbrev Moves : List (RaftNode StdRng) → List (RaftNode StdRng) → Type 0
  Moves = Evolves R c.alive c.connected

  abbrev N : ℕ
  N = length c.nodes

  Moves-one :
      (j : ℕ) (ev : Event) (f : RaftNode StdRng → RaftNode StdRng) (ns : List (RaftNode StdRng))
      → j < length ns
      → get_elem? c.alive j ≡ some true
      → (get_elem? c.connected j ≡ some false → IsLocal ev)
      → ((n : RaftNode StdRng) → get_elem? ns j ≡ some n → f n ≡ react R ev n)
      → Gives (Moves ns) (modify_at j f ns)
  Moves-one j ev f ns l up local same =
      Gives-map (Modified j f ns) (Moves ns) (modify_at j f ns) (modify_at-Modified j f ns l)
        λ ns' m. Evolves-one R c.alive c.connected j ev f ns ns' up local same m

  tick_loop-Moves :
      (k i : ℕ) (ns : List (RaftNode StdRng))
      → i + k ≤ N
      → length ns ≡ N
      → Gives (Moves ns) (tick_loop R c.alive k i ns)
  unfolding tick_loop react
  tick_loop-Moves zero i ns h e = Evolves-refl R c.alive c.connected ns
  tick_loop-Moves (suc k) i ns h e =
      Gives-bind (λ up. get_elem? c.alive i ≡ some up) (Moves ns) (get_elem? c.alive i) _
        (get_elem?-Gives c.alive i (omega (arith, v.alive_size)))
        λ up u.
          Gives-bind (Moves ns) (Moves ns) (if up then modify_at i (tick R) ns else some ns) _
            (Gives-if (Moves ns) up _ _
              (λ t.
                Moves-one i ticked (tick R) ns (omega arith) (rw t at u) (λ _. tt) (λ n _. refl))
              (λ _. Evolves-refl R c.alive c.connected ns))
            λ ns' m.
              Gives-map (Moves ns') (Moves ns) (tick_loop R c.alive k (suc i) ns')
                (tick_loop-Moves k (suc i) ns' (omega arith) (m.size ∙ e))
                λ ns'' m'. Evolves-trans R c.alive c.connected m m'

  -- What holds of the drain's state, from the nodes `ns` on.
  pub record DrainedFrom (ns : List (RaftNode StdRng)) (s : Drained StdRng) : Type 0 where
    pub moves : Moves ns s.nodes
    pub stores : length s.stores ≡ N
    pub posted : All (IsPosted c.id_to_idx N) s.bus

  post_from :
      (i : ℕ)
      → i < N
      → (envs : List Envelope) (bus : List Parcel) → All (IsPosted c.id_to_idx N) bus
      → Gives (All (IsPosted c.id_to_idx N)) (post c.id_to_idx (get_elem? c.ids i) envs bus)
  post_from i l envs bus h =
      let named = get_elem?-Gives c.ids i (omega (arith, v.ids_size)) in
      elim (Option-cases (get_elem? c.ids i)) [
        | inl e ↦ absurd (rw e at named)
        | inr (id, e) ↦ rw e (post-IsPosted c.id_to_idx N v.in_range id (v.known i id e) envs bus h)
      ]

  drain_node-DrainedFrom :
      (i : ℕ) (ns : List (RaftNode StdRng)) (s : Drained StdRng)
      → i < N
      → length ns ≡ N
      → get_elem? c.alive i ≡ some true
      → DrainedFrom ns s
      → Gives (DrainedFrom ns) (drain_node C c.ids c.id_to_idx i s)
  unfolding drain_node react HasSize
  drain_node-DrainedFrom i ns s l e up d =
      Gives-bind (λ n. get_elem? s.nodes i ≡ some n) (DrainedFrom ns) (get_elem? s.nodes i) _
        (get_elem?-Gives s.nodes i (omega (arith, d.moves.size)))
        λ n at_i.
          Gives-bind (Moves s.nodes) (DrainedFrom ns) (modify_at i (λ _. (take_ready n).0) s.nodes)
            _
            (Moves-one i drained (λ _. (take_ready n).0) s.nodes (omega (arith, d.moves.size)) up
              (λ _. tt) (λ n' at_i'. ap (λ x. (take_ready x).0) (cc)))
            λ nodes' m.
              Gives-bind (HasSize N) (DrainedFrom ns)
                (apply_stores C i (take_ready n).1.committed s.stores) _
                (apply_stores-HasSize C N i l (take_ready n).1.committed s.stores d.stores)
                λ stores' z.
                  Gives-bind (All (IsPosted c.id_to_idx N)) (DrainedFrom ns)
                    (post c.id_to_idx (get_elem? c.ids i) (take_ready n).1.messages s.bus) _
                    (post_from i l (take_ready n).1.messages s.bus d.posted)
                    λ bus' p. record {
                      moves = Evolves-trans R c.alive c.connected d.moves m;
                      stores = z;
                      posted = p;
                    }

  drain_loop-DrainedFrom :
      (k i : ℕ) (ns : List (RaftNode StdRng)) (s : Drained StdRng)
      → i + k ≤ N
      → length ns ≡ N
      → DrainedFrom ns s
      → Gives (DrainedFrom ns) (drain_loop C c.ids c.id_to_idx c.alive k i s)
  unfolding drain_loop
  drain_loop-DrainedFrom zero i ns s l e d = d
  drain_loop-DrainedFrom (suc k) i ns s l e d =
      Gives-bind (λ up. get_elem? c.alive i ≡ some up) (DrainedFrom ns) (get_elem? c.alive i) _
        (get_elem?-Gives c.alive i (omega (arith, v.alive_size)))
        λ up u.
          Gives-bind (DrainedFrom ns) (DrainedFrom ns)
            (if up then drain_node C c.ids c.id_to_idx i s else some s) _
            (Gives-if (DrainedFrom ns) up _ _
              (λ t. drain_node-DrainedFrom i ns s (omega arith) e (rw t at u) d) (λ _. d))
            λ s' d'. drain_loop-DrainedFrom k (suc i) ns s' (omega arith) e d'

  -- What `deliverable` has tested where it holds.
  abbrev Reaches : ℕ → Bool → Type 0
  Reaches to reaches =
      reaches ≡ true → (get_elem? c.alive to ≡ some true) × (get_elem? c.connected to ≡ some true)

  deliverable-Reaches :
      (from to : ℕ)
      → from < N
      → to < N
      → Gives (Reaches to) (deliverable c.alive c.connected from to)
  unfolding deliverable
  deliverable-Reaches from to l m =
      tests (get_elem? c.alive from) (get_elem? c.alive to) (get_elem? c.connected from)
        (get_elem? c.connected to) (get_elem?-Gives c.alive from (omega (arith, v.alive_size)))
        (get_elem?-Gives c.alive to (omega (arith, v.alive_size)))
        (get_elem?-Gives c.connected from (omega (arith, v.connected_size)))
        (get_elem?-Gives c.connected to (omega (arith, v.connected_size)))
    where
      tests :
          (a b x y : Option Bool)
          → Gives (λ t. get_elem? c.alive from ≡ some t) a
          → Gives (λ t. get_elem? c.alive to ≡ some t) b
          → Gives (λ t. get_elem? c.connected from ≡ some t) x
          → Gives (λ t. get_elem? c.connected to ≡ some t) y
          → Gives (Reaches to) (and_also a (and_also b (and_also x y)))
      tests none b x y p q r s = p
      tests (some false) b x y p q r s = λ e. cc
      tests (some true) none x y p q r s = q
      tests (some true) (some false) x y p q r s = λ e. cc
      tests (some true) (some true) none y p q r s = r
      tests (some true) (some true) (some false) y p q r s = λ e. cc
      tests (some true) (some true) (some true) none p q r s = s
      tests (some true) (some true) (some true) (some false) p q r s = λ e. cc
      tests (some true) (some true) (some true) (some true) p q r s = λ e. (q, s)

  deliver_loop-Moves :
      (bus : List Parcel) (ns : List (RaftNode StdRng))
      → length ns ≡ N
      → All (IsPosted c.id_to_idx N) bus
      → Gives (Moves ns) (deliver_loop R c.alive c.connected c.id_to_idx bus ns)
  unfolding deliver_loop react
  deliver_loop-Moves [] ns e h = Evolves-refl R c.alive c.connected ns
  deliver_loop-Moves (p ∷ bus) ns e ((l, known), hs) =
      Gives-bind (λ j. j < N) (Moves ns) (lookup p.from c.id_to_idx) _ known
        λ from m.
          Gives-bind (Reaches p.to) (Moves ns) (deliverable c.alive c.connected from p.to) _
            (deliverable-Reaches from p.to m l)
            λ reaches t.
              Gives-bind (Moves ns) (Moves ns)
                (if reaches then modify_at p.to (step R p.from p.message) ns else some ns) _
                (Gives-if (Moves ns) reaches _ _
                  (λ y.
                    Moves-one p.to (received p.from p.message) (step R p.from p.message) ns
                      (omega arith) (t y).0 (λ cut. let joined = (t y).1 in cc) (λ n _. refl))
                  (λ _. Evolves-refl R c.alive c.connected ns))
                λ ns' x.
                  Gives-map (Moves ns') (Moves ns)
                    (deliver_loop R c.alive c.connected c.id_to_idx bus ns')
                    (deliver_loop-Moves bus ns' (x.size ∙ e) hs)
                    λ ns'' y. Evolves-trans R c.alive c.connected x y

  -- The step moves the nodes by inputs of their own, and leaves a cluster in the same connections.
  pub record Stepped (c' : SimCluster StdRng) : Type 0 where
    pub moves : Moves c.nodes c'.nodes
    pub cluster : IsCluster c'
    pub alive : c'.alive ≡ c.alive
    pub connected : c'.connected ≡ c.connected

  pub advance-Stepped : Gives Stepped (advance R C c)
  unfolding advance
  advance-Stepped =
      Gives-bind (Moves c.nodes) Stepped (tick_loop R c.alive N 0 c.nodes) _
        (tick_loop-Moves N 0 c.nodes (omega arith) refl)
        λ ticked t.
          Gives-bind (DrainedFrom ticked) Stepped
            (drain_loop C c.ids c.id_to_idx c.alive (length ticked) 0
              (record { nodes = ticked; stores = c.stores; bus = [] }))
            _
            (drain_loop-DrainedFrom (length ticked) 0 ticked _ (omega (arith, t.size)) t.size
              (record {
                moves = Evolves-refl R c.alive c.connected ticked;
                stores = v.stores_size;
                posted = tt;
              }))
            λ s d.
              Gives-bind (Moves s.nodes) Stepped
                (deliver_loop R c.alive c.connected c.id_to_idx s.bus s.nodes) _
                (deliver_loop-Moves s.bus s.nodes (d.moves.size ∙ t.size) d.posted)
                λ ns' m.
                  let all =
                    Evolves-trans R c.alive c.connected t
                      (Evolves-trans R c.alive c.connected d.moves m) in
                  record {
                    moves = all;
                    cluster = record {
                      stores_size = d.stores ∙ sym all.size;
                      alive_size = v.alive_size ∙ sym all.size;
                      connected_size = v.connected_size ∙ sym all.size;
                      ids_size = v.ids_size ∙ sym all.size;
                      known = v.known;
                      in_range = λ id j e. rw all.size (v.in_range id j e);
                    };
                    alive = refl;
                    connected = refl;
                  }
