-- ===== src/Ip/Resolve/Walk.antt =====
-- The walk over the results of source/sio/ip/resolve.hpp, against a description of it by the list of
-- all results.
use senders_io.Prelude.{
  >>=-eq-some, some-injective, ℕ, ◌≡◌, refl, sym, ap, ◌∙◌, Option, some, List, [], ◌∷◌, ◌++◌,
  append-nil, append_assoc, ◌>>=◌,
}
use senders_io.Ip.Resolve.{
  AddrInfo, ResolverResult, make_result, set_value, set_exception, value_unless_stopped, Answer,
  goes_on, stops, throws, Operation, complete, free, pass, start_next, success, notify,
}

-- the results of all addrinfos, if none fails an assertion
unfoldable pub make_results : List ℕ → List ℕ → List AddrInfo → Option (List ResolverResult)
make_results host service [] = some []
make_results host service (x ∷ xs) = do
  r ← make_result x host service
  rs ← make_results host service xs
  some (r ∷ rs)

-- the first answer that is not to go on
abbrev pub last_answer : (ResolverResult → Answer) → List ResolverResult → Answer
last_answer answer [] = goes_on
last_answer answer (r ∷ rs) = elim (answer r) [
  | goes_on ↦ last_answer answer rs
  | stops ↦ stops
  | throws ↦ throws
]

-- the results up to there, without one whose item could not be made
abbrev pub shown : (ResolverResult → Answer) → List ResolverResult → List ResolverResult
shown answer [] = []
shown answer (r ∷ rs) = elim (answer r) [
  | goes_on ↦ r ∷ shown answer rs
  | stops ↦ r ∷ []
  | throws ↦ []
]

abbrev pub finish : Answer → Operation → Operation
finish goes_on o = complete (free o) set_value
finish stops o = complete (free o) value_unless_stopped
finish throws o = complete o set_exception

abbrev pub show_all : Operation → List ResolverResult → Operation
show_all o rs = record o { items = o.items ++ rs }

show_more :
    (o : Operation) (r : ResolverResult) (rs : List ResolverResult)
    → show_all (pass o r) rs ≡ show_all o (r ∷ rs)
show_more o r rs = ap (λ l. record o { items = l }) (append_assoc o.items (r ∷ []) rs)

show_none : (o : Operation) → show_all o [] ≡ o
show_none o = ap (λ l. record o { items = l }) (append-nil o.items)

module _ (answer : ResolverResult → Answer) (o : Operation) (r : ResolverResult) where
  -- one result, with what follows when its receiver goes on
  answers :
      (rs : List ResolverResult) (next : Option Operation)
      → next ≡ some (finish (last_answer answer rs) (show_all (pass o r) (shown answer rs)))
      → (a : Answer)
      → (let following : Option Operation = elim a [
        | goes_on ↦ next
        | stops ↦ some (complete (free (pass o r)) value_unless_stopped)
        | throws ↦ some (complete o set_exception)
      ] in
          let end_ : Answer = elim a [
            | goes_on ↦ last_answer answer rs
            | stops ↦ stops
            | throws ↦ throws
          ] in
          let seen : List ResolverResult = elim a [
            | goes_on ↦ r ∷ shown answer rs
            | stops ↦ r ∷ []
            | throws ↦ []
          ] in
          following ≡ some (finish end_ (show_all o seen)))
  answers rs next e goes_on =
      e ∙ ap (λ p. some (finish (last_answer answer rs) p)) (show_more o r (shown answer rs))
  answers rs next e stops = refl
  answers rs next e throws = ap (λ p. some (complete p set_exception)) (sym (show_none o))

-- `xs` after `x`
start_next-walks :
    (answer : ResolverResult → Answer) (x : AddrInfo) (xs : List AddrInfo) (o : Operation)
    (r : ResolverResult) (rs : List ResolverResult)
    → make_result x o.query.host_name o.query.service_name ≡ some r
    → make_results o.query.host_name o.query.service_name xs ≡ some rs
    → start_next answer x xs o
      ≡ some (finish (last_answer answer (r ∷ rs)) (show_all o (shown answer (r ∷ rs))))
unfolding start_next make_results
start_next-walks answer x [] o r [] e h = rw e (
    answers answer o r [] (some (complete (free (pass o r)) set_value))
      (ap (λ p. some (complete (free p) set_value)) (sym (show_none (pass o r)))) (answer r))
start_next-walks answer x [] o r (s ∷ rs) e h = absurd (cc h)
start_next-walks answer x (y ∷ ys) o r rs e h =
    let (t, f, rest) = >>=-eq-some (make_result y o.query.host_name o.query.service_name) _ h in
    let (ts, g, eq) = >>=-eq-some (make_results o.query.host_name o.query.service_name ys) _ rest in
    rw (e, ← some-injective (t ∷ ts) rs eq)
      (answers answer o r (t ∷ ts) (start_next answer y ys (pass o r))
        (start_next-walks answer y ys (pass o r) t ts f g) (answer r))

-- For results of getaddrinfo_a that fail no assertion of resolver_result: the results are passed on in
-- their order, up to the first whose item does not go on. With no such item the results are freed and
-- then the receiver is told set_value; with an item that stops they are freed and it is told
-- value_unless_stopped; with an item that cannot be made it is told the exception, and the results are
-- not freed.
pub notify-walks :
    (answer : ResolverResult → Answer) (x : AddrInfo) (xs : List AddrInfo) (o : Operation)
    (rs : List ResolverResult)
    → make_results o.query.host_name o.query.service_name (x ∷ xs) ≡ some rs
    → notify answer success (x ∷ xs) o
      ≡ some (finish (last_answer answer rs) (show_all o (shown answer rs)))
unfolding notify make_results
notify-walks answer x xs o rs h =
    let (t, f, rest) = >>=-eq-some (make_result x o.query.host_name o.query.service_name) _ h in
    let (ts, g, eq) = >>=-eq-some (make_results o.query.host_name o.query.service_name xs) _ rest in
    rw (← some-injective (t ∷ ts) rs eq) (start_next-walks answer x xs o t ts f g)
