-- ===== src/Connection/Started.antt =====
-- The groups that a connection of web/restinio/restinio/impl/connection.hpp has started, and their order.
use prj.Prelude.{
  ℕ, ◌≤◌, ◌≡◌, refl, sym, ap, subst, ◌∙◌, ◌⊎◌, inl, inr, Bool, false, Option, none, some, List, [],
  ◌∷◌, ◌++◌, append-nil, arith, All, All-append, map,
}
use prj.Prelude.Outcome.{Outcome, M}
use prj.Coordinator.Order.{IsCoordinator}
use prj.Coordinator.Runs.{IsSortedFrom}
use prj.Connection.{
  Event, group_started, write_started, notified, read_started, closed_socket, Connection,
  add_events, notify,
}

-- The requests for which a group has been started.
abbrev pub started : List Event → List ℕ
started [] = []
started (group_started id ∷ events) = id ∷ started events
started (write_started bufs ∷ events) = started events
started (notified cb success ∷ events) = started events
started (read_started ∷ events) = started events
started (closed_socket ∷ events) = started events

started-append : (xs ys : List Event) → started (xs ++ ys) ≡ started xs ++ started ys
started-append [] ys = refl
started-append (group_started id ∷ xs) ys = ap (◌∷◌ id) (started-append xs ys)
started-append (write_started bufs ∷ xs) ys = started-append xs ys
started-append (notified cb success ∷ xs) ys = started-append xs ys
started-append (read_started ∷ xs) ys = started-append xs ys
started-append (closed_socket ∷ xs) ys = started-append xs ys

pub started_quiet : (xs ys : List Event) → started ys ≡ [] → started (xs ++ ys) ≡ started xs
started_quiet xs ys e = started-append xs ys ∙ ap (◌++◌ (started xs)) e ∙ append-nil (started xs)

pub started_callbacks : (cbs : List ℕ) → started (map (λ cb. notified cb false) cbs) ≡ []
started_callbacks [] = refl
started_callbacks (cb ∷ cbs) = started_callbacks cbs

pub started-notify : (success : Bool) (cb : Option ℕ) → started (notify success cb) ≡ []
started-notify success none = refl
started-notify success (some cb) = refl

-- One more at the end.
snoc-IsSortedFrom :
    (low id : ℕ) (ids : List ℕ)
    → low ≤ id
    → All (λ k. k ≤ id) ids
    → IsSortedFrom low ids
    → IsSortedFrom low (ids ++ id ∷ [])
snoc-IsSortedFrom low id [] l b s = (l, tt)
snoc-IsSortedFrom low id (k ∷ ids) l b s = (s.0, snoc-IsSortedFrom k id ids b.0 b.1 s.1)

All-weaken : (b b' : ℕ) (ids : List ℕ) → b ≤ b' → All (λ k. k ≤ b) ids → All (λ k. k ≤ b') ids
All-weaken b b' [] l h = tt
All-weaken b b' (k ∷ ids) l h = (let h' = h.0 in omega arith, All-weaken b b' ids l h.1)

-- The coordinator is well formed, and the groups that have been started are in the order of their
-- requests, none of which is behind the oldest open one.
pub record InOrder (c : Connection) : Type 0 where
  pub base : ℕ
  pub valid : IsCoordinator c.coordinator base
  pub sorted : IsSortedFrom 0 (started c.events)
  pub below : All (λ id. id ≤ base) (started c.events)

abbrev pub InOrderAfter : Outcome (Unit {0}) × Connection → Type 0
InOrderAfter r = InOrder r.1

abbrev pub Keeps : M Connection (Unit {0}) → Type 0
Keeps op = (c : Connection) → InOrder c → InOrder (op c).1

-- What starts no group, with a coordinator whose oldest request is no earlier one.
pub moved :
    (c d : Connection) (v : InOrder c) (base : ℕ)
    → IsCoordinator d.coordinator base
    → v.base ≤ base
    → started d.events ≡ started c.events
    → InOrder d
moved c d v base w l e = record {
  base = base;
  valid = w;
  sorted = subst (IsSortedFrom 0) (sym e) v.sorted;
  below = subst (All (λ id. id ≤ base)) (sym e) (All-weaken v.base base _ l v.below);
}

pub quiet :
    (c d : Connection)
    → InOrder c
    → d.coordinator ≡ c.coordinator
    → started d.events ≡ started c.events
    → InOrder d
quiet c d v same e =
    moved c d v v.base (subst (λ k. IsCoordinator k v.base) (sym same) v.valid) (omega arith) e

pub add_events-Keeps :
    (c : Connection) (events : List Event)
    → started events ≡ []
    → InOrder c
    → InOrder (add_events events c)
add_events-Keeps c events e v =
    quiet c (add_events events c) v refl (started_quiet c.events events e)

pub given_id : (id base : ℕ) → ((◌≡◌ {A = List ℕ} (id ∷ []) []) ⊎ (id ∷ [] ≡ base ∷ [])) → id ≡ base
given_id id base (inl e) = cc
given_id id base (inr e) = cc

-- A group that has been taken from the coordinator is started.
pub started-InOrder :
    (c d : Connection) (v : InOrder c) (base id : ℕ)
    → IsCoordinator d.coordinator base
    → v.base ≤ base
    → id ≡ v.base
    → d.events ≡ c.events ++ group_started id ∷ []
    → InOrder d
started-InOrder c d v base id w l same e =
    let ids : started d.events ≡ started c.events ++ id ∷ [] =
      ap started e ∙ started-append c.events (group_started id ∷ []) in
    let old = All-weaken v.base id (started c.events) (omega arith) v.below in
    record {
      base = base;
      valid = w;
      sorted =
          subst (IsSortedFrom 0) (sym ids)
            (snoc-IsSortedFrom 0 id (started c.events) (omega arith) old v.sorted);
      below = subst (All (λ k. k ≤ base)) (sym ids) (
          All-append (λ k. k ≤ base) (started c.events) (id ∷ [])
            (All-weaken v.base base (started c.events) l v.below) (omega arith, tt));
    }
