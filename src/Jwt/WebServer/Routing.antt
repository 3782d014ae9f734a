-- ===== src/Jwt/WebServer/Routing.antt =====
-- Which handler answers a request.
use kos_ce_extra.Prelude.{
  ℕ, true, false, [], ◌∷◌, ◌++◌, ◌≡◌, refl, ◌≢◌, ◌↔◌, ◌⊎◌, inl, inr, arith, if◌then◌else◌, Text,
  text_eq, text_eq_iff, ap, ◌==◌, Bool-cases,
}
use kos_ce_extra.Prelude.Map.{find-insert, find-erase}
use kos_ce_extra.Jwt.Http.{Request, HttpUriHandler}
use kos_ce_extra.Jwt.WebServer.{
  WebServer, set_handler, remove_handler, has_dots, is_illegal, route_of, respond, handle_request,
}

-- The pair of dots that `has_dots` looks for.
dots_found : (s : Text) → has_dots s ≡ true → (a : Text) × (b : Text) × (s ≡ a ++ b'.' ∷ b'.' ∷ b)
unfolding has_dots
dots_found [] h = absurd (ground arith)
dots_found (x ∷ []) h = absurd (ground arith)
dots_found (x ∷ y ∷ s) h = elim (Bool-cases (has_dots (y ∷ s))) [
  | inl later ↦ let (a, b, e) = dots_found (y ∷ s) later in (x ∷ a, b, ap (λ t. x ∷ t) e)
  | inr e ↦ ([], s, ground (arith, h, e))
]

dots_here : (a b : Text) → has_dots (a ++ b'.' ∷ b'.' ∷ b) ≡ true
unfolding has_dots
dots_here [] b = refl
dots_here (x ∷ []) b = ground arith
dots_here (x ∷ y ∷ a) b = ground (arith, dots_here (y ∷ a) b)

abbrev Refusable : Text → Type 0
Refusable target =
    (target ≡ [])
    ⊎ ((x : ℕ) × (s : Text) × (target ≡ x ∷ s) × (x ≢ b'/'))
    ⊎ ((a : Text) × (b : Text) × (target ≡ a ++ b'.' ∷ b'.' ∷ b))

illegal_found : (target : Text) → is_illegal target ≡ true → Refusable target
unfolding is_illegal
illegal_found [] h = inl refl
illegal_found (x ∷ s) h = elim (Bool-cases (x == b'/')) [
  | inl slash ↦ inr (inr (dots_found (x ∷ s) (ground arith)))
  | inr e ↦ inr (inl (x, s, refl, ground arith))
]

illegal_dots : (a b : Text) → is_illegal (a ++ b'.' ∷ b'.' ∷ b) ≡ true
unfolding is_illegal
illegal_dots [] b = refl
illegal_dots (x ∷ a) b = ground (arith, dots_here (x ∷ a) b)

illegal_back : (target : Text) → Refusable target → is_illegal target ≡ true
unfolding is_illegal
illegal_back target (inl e) = rw e
illegal_back target (inr (inl (x, s, e, h))) = rw e (ground arith)
illegal_back target (inr (inr (a, b, e))) = rw e (illegal_dots a b)

-- The requests that are refused whatever handlers there are: exactly those whose target is empty,
-- does not begin with a slash, or holds two dots in a row.
is_illegal_iff :
    (target : Text)
    → (is_illegal target ≡ true) ↔ (
        (target ≡ [])
        ⊎ ((x : ℕ) × (s : Text) × (target ≡ x ∷ s) × (x ≢ b'/'))
        ⊎ ((a : Text) × (b : Text) × (target ≡ a ++ b'.' ∷ b'.' ∷ b)))
is_illegal_iff target = (illegal_found target, illegal_back target)

-- Once a handler is set for a URI, it answers the legal requests for that URI, and every other
-- legal request is answered as before.
handle_request-set_handler :
    (uri : Text) (h : HttpUriHandler) (s : WebServer) (req : Request)
    → uri ≢ []
    → is_illegal req.target ≡ false
    → handle_request (set_handler uri h s) req
      ≡ (if text_eq uri (route_of req) then respond h req else handle_request s req)
unfolding handle_request set_handler
handle_request-set_handler uri h s req ne legal =
    ground (
      arith,
      text_eq_iff uri [],
      find-insert text_eq text_eq_iff uri (route_of req) h s.uri_handlers,
    )

-- Once the handler of a URI is removed, the legal requests for that URI are answered as if no URI
-- had a handler, and every other legal request as before.
handle_request-remove_handler :
    (uri : Text) (s : WebServer) (req : Request)
    → uri ≢ []
    → is_illegal req.target ≡ false
    → handle_request (remove_handler uri s) req ≡ (
        if text_eq uri (route_of req)
        then handle_request (record s { uri_handlers = [] }) req
        else handle_request s req)
unfolding handle_request remove_handler
handle_request-remove_handler uri s req ne legal =
    ground
      (arith, text_eq_iff uri [], find-erase text_eq text_eq_iff uri (route_of req) s.uri_handlers)
