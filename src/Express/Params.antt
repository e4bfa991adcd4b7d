-- ===== src/Express/Params.antt =====
-- `match_route` of web/restinio/restinio/router/express.hpp and its parameters.
use prj.Prelude.{
  list_laws, subst, ◌-◌, ℕ, suc, ◌+◌, ◌≤◌, ◌≡◌, refl, ap, ◌∙◌, true, Option, none, some, List, [],
  ◌∷◌, ◌++◌, arith, Bytes, All, length, leb, ◌&&◌, take, drop, length-append,
}
use prj.Prelude.Outcome.{ok}
use prj.Prelude.Throwing.{◌>>=◌, >>=-eq-ok}
use prj.RouteParams.{RouteParams, indexed_parameters_size}
use prj.Path2Regex.Token.{Appender, add_named, add_indexed}
use prj.Path2Regex.Compile.{RegexEngine}
use prj.Express.{RouteEntry, add_param, submatch, add_empty, add_submatches, matched, match_route}

-- The names of a route, in order, and how many of its parameters have none.
abbrev pub names : List Appender → List Bytes
names [] = []
names (add_named key ∷ appenders) = key ∷ names appenders
names (add_indexed ∷ appenders) = names appenders

abbrev pub indexed_count : List Appender → ℕ
indexed_count [] = 0
indexed_count (add_named key ∷ appenders) = indexed_count appenders
indexed_count (add_indexed ∷ appenders) = suc (indexed_count appenders)

abbrev pub keys : List (Bytes × Bytes) → List Bytes
keys [] = []
keys ((k, v) ∷ ps) = k ∷ keys ps

keys-append :
    (ps : List (Bytes × Bytes)) (k v : Bytes) (rest : List Bytes)
    → keys (ps ++ (k, v) ∷ []) ++ rest ≡ keys ps ++ k ∷ rest
keys-append [] k v rest = refl
keys-append ((k', v') ∷ ps) k v rest = ap (◌∷◌ k') (keys-append ps k v rest)

-- The parameters have these after the ones that they had.
record Extends (appenders : List Appender) (before after : RouteParams) : Type 0 where
  named : keys after.named_parameters ≡ keys before.named_parameters ++ names appenders
  indexed :
      length after.indexed_parameters ≡ length before.indexed_parameters + indexed_count appenders
  same_target : after.request_target ≡ before.request_target

done-Extends : (p : RouteParams) → Extends [] p p
done-Extends p = record { named = simp list_laws; indexed = omega arith; same_target = refl }

step-Extends :
    (a : Appender) (appenders : List Appender) (value : Bytes) (p after : RouteParams)
    → Extends appenders (add_param a value p) after
    → Extends (a ∷ appenders) p after
step-Extends (add_named key) appenders value p after e = record {
  named = e.named ∙ keys-append p.named_parameters key value (names appenders);
  indexed = e.indexed;
  same_target = e.same_target;
}
step-Extends add_indexed appenders value p after e = record {
  named = e.named;
  indexed = e.indexed ∙ omega (arith, length-append p.indexed_parameters (value ∷ []));
  same_target = e.same_target;
}

add_empty-Extends :
    (appenders : List Appender) (p : RouteParams) → Extends appenders p (add_empty appenders p)
unfolding add_empty
add_empty-Extends [] p = done-Extends p
add_empty-Extends (a ∷ appenders) p =
    step-Extends a appenders [] p (add_empty appenders (add_param a [] p))
      (add_empty-Extends appenders (add_param a [] p))

module _ (target : Bytes) where
  add_submatches-Extends :
      (appenders : List Appender) (ms : List (ℕ × ℕ)) (p after : RouteParams)
      → add_submatches target appenders ms p ≡ ok after
      → Extends appenders p after
  unfolding add_submatches
  add_submatches-Extends appenders [] p after e =
      let same : add_empty appenders p ≡ after = cc in
      subst (Extends appenders p) same (add_empty-Extends appenders p)
  add_submatches-Extends [] (m ∷ ms) p after e = cc
  add_submatches-Extends (a ∷ appenders) (m ∷ ms) p after e =
      let (value, shown, rest) = >>=-eq-ok (submatch target m) _ e in
      step-Extends a appenders value p after
        (add_submatches-Extends appenders ms (add_param a value p) after rest)

  -- A pair of positions in the target.
  abbrev pub IsInside : ℕ × ℕ → Type 0
  IsInside m = (m.0 ≤ m.1) × (m.1 ≤ length target)

  submatch_inside : (m : ℕ × ℕ) → IsInside m → (v : Bytes) × (submatch target m ≡ ok v)
  unfolding submatch
  submatch_inside m h =
      let t : (leb (m.0) (m.1) && leb (m.1) (length target)) ≡ true = ground arith in
      (take (m.1 - m.0) (drop (m.0) target), rw t refl)

  add_submatches_defined :
      (appenders : List Appender) (ms : List (ℕ × ℕ)) (p : RouteParams)
      → All IsInside ms
      → length ms ≤ length appenders
      → (after : RouteParams) × (add_submatches target appenders ms p ≡ ok after)
  unfolding add_submatches
  add_submatches_defined appenders [] p h k = (add_empty appenders p, refl)
  add_submatches_defined [] (m ∷ ms) p h k = absurd (omega arith)
  add_submatches_defined (a ∷ appenders) (m ∷ ms) p h k =
      let (v, e) = submatch_inside m h.0 in
      rw e (add_submatches_defined appenders ms (add_param a v p) h.1 (omega arith))

-- What a route promises of its parameters.
abbrev pub Carries : List Appender → Bytes → RouteParams → Type 0
Carries appenders target p =
    (keys p.named_parameters ≡ names appenders)
    × (indexed_parameters_size p ≡ indexed_count appenders)
    × (p.request_target ≡ target)

matched-Carries :
    (target : Bytes) (appenders : List Appender) (ms : List (ℕ × ℕ)) (p : RouteParams)
    → matched target appenders ms ≡ ok p
    → Carries appenders target p
unfolding matched indexed_parameters_size
matched-Carries target appenders [] p e = cc
matched-Carries target appenders (m ∷ ms) p e =
    let (v, shown, rest) = >>=-eq-ok (submatch target m) _ e in
    let x : Extends appenders _ p = add_submatches-Extends target appenders ms _ p rest in
    (x.named, omega (arith, x.indexed), x.same_target)

result-Carries :
    (target : Bytes) (appenders : List Appender) (r : Option (List (ℕ × ℕ))) (p : RouteParams)
    → (elim r [ none ↦ ok none | some ms ↦ matched target appenders ms >>= λ q. ok (some q) ])
      ≡ ok (some p)
    → Carries appenders target p
result-Carries target appenders none p e = cc
result-Carries target appenders (some ms) p e =
    let (q, one, same) = >>=-eq-ok (matched target appenders ms) _ e in
    matched-Carries target appenders ms p (let k : q ≡ p = cc in one ∙ ap ok k)

module _ (engine : RegexEngine) {H : Type 0} where
  open engine use {Regex, try_match}

  -- The parameters of a match carry the names of the route, in order, and as many values without
  -- names as it has captures without names, also if the engine reports fewer captures.
  pub match_route-names :
      (entry : RouteEntry Regex H) (target : Bytes) (p : RouteParams)
      → match_route engine entry target ≡ ok (some p)
      → Carries entry.appenders target p
  unfolding match_route
  match_route-names entry target p e =
      result-Carries target entry.appenders (try_match target entry.route_regex) p e

  -- A match gives parameters, with no access out of bounds, if the engine reports the whole match and
  -- at most one capture for each appender, all inside the target.
  pub match_route_defined :
      (entry : RouteEntry Regex H) (target : Bytes) (whole : ℕ × ℕ) (ms : List (ℕ × ℕ))
      → try_match target entry.route_regex ≡ some (whole ∷ ms)
      → All (IsInside target) (whole ∷ ms)
      → length ms ≤ length entry.appenders
      → (p : RouteParams) × (match_route engine entry target ≡ ok (some p))
  unfolding match_route
  match_route_defined entry target whole ms e h k =
      let (v, shown) = submatch_inside target whole h.0 in
      let (after, all) =
        add_submatches_defined target entry.appenders ms
          (record {
            request_target = target;
            match = v;
            named_parameters = [];
            indexed_parameters = [];
          })
          h.1 k in
      (after, rw (match_route, e, matched, shown, all) refl)
