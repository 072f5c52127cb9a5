-- ===== src/Transport/Udp/Held.antt =====
-- Which transactions a UDP transporter holds for a peer, outstanding or kept back: src/transport/udp.rs.
pub mod Calls
pub mod Retransmit
pub mod Entries
pub mod All
use rustun.Prelude.{
  nat_partial_eq, ℕ, ◌≡◌, ◌≢◌, sym, subst, Bool, true, false, Option, none, some, List, [], ◌∷◌,
  ◌++◌, Bool-cases, inl, inr, ◌⊎◌, ◌&&◌, not, arith, nat_beq, nat_beq_iff,
}
use rustun.Prelude.HashMap.{get, insert, remove, get-insert, get-remove}
use rustun.Prelude.HashSet
use rustun.Prelude.HashSet.{contains, contains-insert, contains-remove}
use rustun.Codec.{StunCodec}
use rustun.Transport.Peer
use rustun.Transport.Peer.{PeerState}
use rustun.Transport.Udp.Pending.{NoneIn, ids_of, NoneIn-append, NoneIn-insert}

contains-map-append :
    (c : StunCodec) (i : ℕ) (l : List c.Message) (m : c.Message)
    → contains i (ids_of c (l ++ m ∷ [])) ≡ true
    → (contains i (ids_of c l) ≡ true) ⊎ (c.transaction_id m ≡ i)
contains-map-append c i [] m h = inr (ground (arith, nat_beq_iff (c.transaction_id m) i))
contains-map-append c i (x ∷ l) m h = ground (arith, contains-map-append c i l m)

module _ (c : StunCodec) (i : ℕ) where
  -- No request that is kept back is of an outstanding transaction, and if the transaction `i` is held,
  -- then `b` is true.
  abbrev pub Good : Bool → PeerState c → Type 0
  Good b p =
      NoneIn c p.transactions p.pending_requests
      × (contains i p.transactions ≡ true → b ≡ true)
      × (contains i (ids_of c p.pending_requests) ≡ true → b ≡ true)

  abbrev pub GoodIn : Bool → Option (PeerState c) → Type 0
  GoodIn b none = Unit {0}
  GoodIn b (some p) = Good b p

  pub GoodIn-weaken :
      (b d : Bool) (o : Option (PeerState c)) → (b ≡ true → d ≡ true) → GoodIn b o → GoodIn d o
  GoodIn-weaken b d none f h = tt
  GoodIn-weaken b d (some p) f (n, o, k) = (n, λ e. f (o e), λ e. f (k e))

  -- The state of a peer is set, or its old state is replaced.
  pub GoodIn-put :
      (b : Bool) (q peer : ℕ) (p : PeerState c) (m : List (ℕ × PeerState c))
      → (peer ≢ q → GoodIn b (get q m))
      → (peer ≡ q → Good b p)
      → GoodIn b (get q (insert peer p m))
  GoodIn-put b q peer p m h k =
      subst (GoodIn b) (sym (get-insert peer q p m)) (elim (Bool-cases (nat_beq peer q)) [
        | inl e ↦ rw e (k ((nat_beq_iff peer q).0 e))
        | inr e ↦ rw e (h (ground arith))
      ])

  pub GoodIn-insert :
      (b : Bool) (q peer : ℕ) (p : PeerState c) (m : List (ℕ × PeerState c))
      → GoodIn b (get q m)
      → (peer ≡ q → Good b p)
      → GoodIn b (get q (insert peer p m))
  GoodIn-insert b q peer p m h = GoodIn-put b q peer p m (λ _. h)

  pub GoodIn-remove :
      (b : Bool) (q peer : ℕ) (m : List (ℕ × PeerState c))
      → (peer ≢ q → GoodIn b (get q m))
      → GoodIn b (get q (remove peer m))
  GoodIn-remove b q peer m h =
      subst (GoodIn b) (sym (get-remove peer q m))
        (elim (Bool-cases (nat_beq peer q)) [ inl e ↦ rw e tt | inr e ↦ rw e (h (ground arith)) ])

  -- A request is kept back.
  pub pending-Good :
      (b : Bool) (m : c.Message) (p : PeerState c)
      → Good b p
      → contains (c.transaction_id m) p.transactions ≡ false
      → (c.transaction_id m ≡ i → b ≡ true)
      → Good b (record p { pending_requests = p.pending_requests ++ m ∷ [] })
  pending-Good b m p (n, o, k) f h = (
    NoneIn-append c p.transactions p.pending_requests m n f,
    o,
    λ e. elim (contains-map-append c i p.pending_requests m e) [ inl x ↦ k x | inr x ↦ h x ],
  )

  -- A transaction is started.
  pub started-Good :
      (b : Bool) (m : c.Message) (p : PeerState c)
      → Good b p
      → contains (c.transaction_id m) (ids_of c p.pending_requests) ≡ false
      → (c.transaction_id m ≡ i → b ≡ true)
      → Good b (record p { transactions = HashSet.insert (c.transaction_id m) p.transactions })
  started-Good b m p (n, o, k) f h = (
    NoneIn-insert c (c.transaction_id m) p.transactions p.pending_requests n f,
    λ e. ground (
      arith,
      contains-insert (c.transaction_id m) i p.transactions,
      nat_beq_iff (c.transaction_id m) i,
      e,
      o,
      h,
    ),
    k,
  )

  -- A transaction is finished.
  pub finished-Good :
      (b : Bool) (id : ℕ) (p : PeerState c)
      → Good b p
      → contains i (HashSet.remove id p.transactions) ≡ true
      → (b && not (nat_beq id i)) ≡ true
  finished-Good b id p (n, o, k) e =
      ground (arith, contains-remove id i p.transactions, e, o, nat_beq_iff id i)
