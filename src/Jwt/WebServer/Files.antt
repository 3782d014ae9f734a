-- ===== src/Jwt/WebServer/Files.antt =====
-- Which files the server opens.
use kos_ce_extra.Prelude.{
  ℕ, true, false, [], ◌∷◌, ◌++◌, some, ◌≡◌, refl, ◌≢◌, arith, if◌then◌else◌, Text, text_eq, codes,
  Bool-cases, inl, inr,
}
use kos_ce_extra.Jwt.Http.{Request, Response, file}
use kos_ce_extra.Jwt.Paths.{ends_with}
use kos_ce_extra.Jwt.Handlers.{
  World, opened, file_path, get_file, all_request_handler, get_token_handler, get_data_handler,
}
use kos_ce_extra.Jwt.WebServer.{
  has_dots, is_illegal, route_of, respond, handle_request, configured, document_root,
}

-- A text that follows a slash adds no pair of dots of its own.
has_dots-append_slash :
    (s t : Text)
    → ends_with b'/' s ≡ true
    → has_dots s ≡ false
    → has_dots t ≡ false
    → has_dots (s ++ t) ≡ false
unfolding has_dots ends_with
has_dots-append_slash [] t e h k = k
has_dots-append_slash (x ∷ []) [] e h k = refl
has_dots-append_slash (x ∷ []) (y ∷ t) e h k = ground arith
has_dots-append_slash (x ∷ y ∷ s) t e h k = ground (arith, has_dots-append_slash (y ∷ s) t)

-- The start of every path below the document root.
abbrev pub Below : Text → Type 0
Below path = (rest : Text) × (path ≡ codes "/www/" ++ rest)

Below-root : (x : ℕ) (s : Text) → x ≡ b'/' → Below (document_root ++ x ∷ s)
Below-root x s e = (s, rw e)

file_path-IsSafe :
    (target : Text)
    → is_illegal target ≡ false
    → Below (file_path document_root target) × (has_dots (file_path document_root target) ≡ false)
unfolding file_path is_illegal has_dots ends_with
file_path-IsSafe [] h = absurd (ground arith)
file_path-IsSafe (x ∷ s) h = elim (Bool-cases (ends_with b'/' (x ∷ s))) [
  | inl slash ↦
      let whole = has_dots-append_slash (document_root ++ x ∷ s) (codes "index.html") slash in
      rw slash (Below-root x (s ++ codes "index.html") (ground arith), whole (ground arith) refl)
  | inr plain ↦ rw plain (Below-root x s (ground arith), ground arith)
]

get_file-opens :
    (world : World) (root : Text) (req : Request) (r : Response) (p : Text) (n : ℕ)
    → get_file world root req ≡ some r
    → r.body ≡ file p n
    → (p ≡ file_path root req.target) × (world.open_file p ≡ opened n)
unfolding get_file
get_file-opens world root req r p n h b = ground arith

respond_all :
    (world : World) (req : Request) (p : Text) (n : ℕ)
    → (respond (all_request_handler world document_root) req).body ≡ file p n
    → (p ≡ file_path document_root req.target) × (world.open_file p ≡ opened n)
unfolding respond all_request_handler
respond_all world req p n h = ground arith

respond_token :
    (world : World) (req : Request) (p : Text) (n : ℕ)
    → (respond (get_token_handler world document_root) req).body ≢ file p n
unfolding respond get_token_handler
respond_token world req p n h = ground arith

respond_data :
    (world : World) (req : Request) (p : Text) (n : ℕ)
    → (respond (get_data_handler world document_root) req).body ≢ file p n
unfolding respond get_data_handler
respond_data world req p n h = ground arith

-- How the server of `main` routes a request.
abbrev pub routed : World → Request → Response
routed world req =
    if text_eq (codes "/gettoken") (route_of req)
    then respond (get_token_handler world document_root) req
    else if text_eq (codes "/getdata") (route_of req)
    then respond (get_data_handler world document_root) req
    else respond (all_request_handler world document_root) req

pub handle_request-configured :
    (world : World) (cert key dh : Text) (req : Request)
    → is_illegal req.target ≡ false
    → handle_request (configured world cert key dh) req ≡ routed world req
unfolding handle_request configured
handle_request-configured world cert key dh req h = ground arith

bad_request-sends_no_file :
    (world : World) (cert key dh : Text) (req : Request) (p : Text) (n : ℕ)
    → is_illegal req.target ≡ true
    → (handle_request (configured world cert key dh) req).body ≢ file p n
unfolding handle_request
bad_request-sends_no_file world cert key dh req p n bad h = ground arith

routed-file :
    (world : World) (req : Request) (p : Text) (n : ℕ)
    → (routed world req).body ≡ file p n
    → (p ≡ file_path document_root req.target) × (world.open_file p ≡ opened n)
routed-file world req p n h =
    ground
      (arith, respond_all world req p n, respond_token world req p n, respond_data world req p n)

-- Every file that the server of `main` sends lies below the document root: its name begins with
-- `/www/` and holds no two dots in a row, and it is a file that could be opened with the size that
-- is sent. This holds for every request and every file system.
pub handle_request-file :
    (world : World) (cert key dh : Text) (req : Request) (p : Text) (n : ℕ)
    → (handle_request (configured world cert key dh) req).body ≡ file p n
    → Below p × (has_dots p ≡ false) × (world.open_file p ≡ opened n)
handle_request-file world cert key dh req p n h = elim (Bool-cases (is_illegal req.target)) [
  | inl bad ↦ absurd (bad_request-sends_no_file world cert key dh req p n bad h)
  | inr legal ↦
      let (named, was_opened) =
        routed-file world req p n
          (rw (handle_request-configured world cert key dh req legal) at h) in
      let (below, safe) = file_path-IsSafe req.target legal in
      rw named (below, safe, rw (← named) was_opened)
]
