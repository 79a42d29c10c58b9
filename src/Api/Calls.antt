-- ===== src/Api/Calls.antt =====
-- The calls with an id in their path: HandleGetSignalMessage, HandleUpdateSignalMessage and
-- HandleResendSignalMessage of servers.conjure.go, and their other side in services.conjure.go. The
-- text of a UUID, the JSON codec and the router are parameters.
use mathlib.Core.List.{append-nil}
use go_signalium.Base.{
  ℕ, sym, ap, ◌∙◌, Bool, ◌≡◌, refl, true, false, Option, none, some, List, [], ◌∷◌, ◌++◌,
  if◌then◌else◌,
}
use go_signalium.Base.Text.{Text, codes, text_eq}
use go_signalium.Domain.{Result, Status}
use go_signalium.Api.Query.{Reply, done, bad_argument, no_path, of_result, ◌>>=◌}

pub data Method : Type 0 where
  get put post : Method

-- What the client sends, once the base URL is chosen.
pub record Request : Type 0 where
  pub method : Method
  pub path : Text
  pub body : Option Text

-- The parameters that the router found in the path; none where the request came past it.
abbrev pub PathParams : Type 0
PathParams = Option (List (Text × Text))

unfoldable pub lookup : Text → List (Text × Text) → Option Text
lookup k [] = none
lookup k ((j, t) ∷ ps) = if text_eq j k then some t else lookup k ps

abbrev or_bad {ℓ} : {A : Type ℓ} → Text → Option A → Reply A
or_bad name none = bad_argument name
or_bad name (some a) = done a

-- The first lines of the three handlers.
unfoldable pub id_arg : (Text → Option ℕ) → PathParams → Reply ℕ
unfolding lookup
id_arg parse_uuid none = no_path
id_arg parse_uuid (some ps) = do
  text ← or_bad (codes "id") (lookup (codes "id") ps)
  or_bad (codes "id") (parse_uuid text)

module _ {ℓ} {A : Type ℓ} (parse_uuid : Text → Option ℕ) where
  unfoldable pub handle_get_signal_message : (ℕ → Result A) → PathParams → Reply A
  unfolding id_arg
  handle_get_signal_message impl ps = do id ← id_arg parse_uuid ps; of_result (impl id)

  unfoldable pub handle_update_signal_message :
      (Text → Option Status) → (ℕ → Status → Result A) → PathParams → Text → Reply A
  unfolding id_arg
  handle_update_signal_message decode impl ps body = do
    id ← id_arg parse_uuid ps
    status ← or_bad (codes "body") (decode body)
    of_result (impl id status)

  unfoldable pub handle_resend_signal_message : (ℕ → Result A) → PathParams → Reply A
  unfolding id_arg
  handle_resend_signal_message impl ps = do id ← id_arg parse_uuid ps; of_result (impl id)

-- GetSignalMessage, UpdateSignalMessage and ResendSignalMessage of the client. `path_escape` is
-- url.PathEscape.
module _ (print_uuid : ℕ → Text) (path_escape : Text → Text) where
  abbrev message_path : ℕ → Text
  message_path id = codes "/api/v1/signal-messages/" ++ path_escape (print_uuid id)

  unfoldable pub get_signal_message : ℕ → Request
  get_signal_message id = record { method = get; path = message_path id; body = none }

  unfoldable pub update_signal_message : (Status → Text) → ℕ → Status → Request
  update_signal_message encode id target = record {
    method = put;
    path = message_path id;
    body = some (encode target);
  }

  unfoldable pub resend_signal_message : ℕ → Request
  resend_signal_message id = record {
    method = post;
    path = message_path id ++ codes "/resend";
    body = none;
  }

-- The routes of RegisterRoutesSignalMessagesService: what stands before and after {id} in the template.
pub data Endpoint : Type 0 where
  get_endpoint update_endpoint resend_endpoint : Endpoint

unfoldable pub route : Endpoint → Method × Text × Text
route get_endpoint = (get, codes "/api/v1/signal-messages/", [])
route update_endpoint = (put, codes "/api/v1/signal-messages/", [])
route resend_endpoint = (post, codes "/api/v1/signal-messages/", codes "/resend")

abbrev same_method : Method → Method → Bool
same_method get get = true
same_method put put = true
same_method post post = true
same_method get put = false
same_method get post = false
same_method put get = false
same_method put post = false
same_method post get = false
same_method post put = false

-- The router: `match` finds the text that stands for {id} in a path, unescaped.
module _ (match : Text → Text → Text → Option Text) where
  abbrev answers : Request → Endpoint → Option Text
  answers r e =
      let (method, before, after) = route e in
      if same_method method r.method then match before after r.path else none

  unfoldable pub routed : Request → List Endpoint → Option (Endpoint × Text)
  unfolding route
  routed r [] = none
  routed r (e ∷ es) = elim (answers r e) [ none ↦ routed r es | some t ↦ some (e, t) ]

  module _ {ℓ} {A : Type ℓ} (parse_uuid : Text → Option ℕ) (decode : Text → Option Status)
      (get_impl : ℕ → Result A) (update_impl : ℕ → Status → Result A)
      (resend_impl : ℕ → Result A) where
    abbrev body_of : Option Text → Text
    body_of none = []
    body_of (some t) = t

    abbrev handled : Endpoint → PathParams → Text → Reply A
    handled get_endpoint ps body = handle_get_signal_message parse_uuid get_impl ps
    handled update_endpoint ps body =
        handle_update_signal_message parse_uuid decode update_impl ps body
    handled resend_endpoint ps body = handle_resend_signal_message parse_uuid resend_impl ps

    abbrev reply_to : Option (Endpoint × Text) → Text → Option (Reply A)
    reply_to none body = none
    reply_to (some (e, t)) body = some (handled e (some ((codes "id", t) ∷ [])) body)

    -- The three routes, in the order of their registration; none where no route fits.
    unfoldable pub serve : Request → Option (Reply A)
    unfolding routed handle_get_signal_message handle_update_signal_message
        handle_resend_signal_message
    serve r =
        reply_to (routed r (get_endpoint ∷ update_endpoint ∷ resend_endpoint ∷ [])) (body_of r.body)

    module _ (print_uuid : ℕ → Text) (path_escape : Text → Text) (encode : Status → Text) where
      -- What each call of the client comes to at the server.
      pub record Reaches (id : ℕ) (target : Status) : Type ℓ where
        pub gets :
            serve (get_signal_message print_uuid path_escape id) ≡ some (of_result (get_impl id))
        pub updates :
            serve (update_signal_message print_uuid path_escape encode id target)
            ≡ some (of_result (update_impl id target))
        pub resends :
            serve (resend_signal_message print_uuid path_escape id)
            ≡ some (of_result (resend_impl id))

      located :
          (id : ℕ)
          → ((before after t : Text)
              → match before after (before ++ (path_escape t ++ after)) ≡ some t)
          → match (codes "/api/v1/signal-messages/") [] (message_path print_uuid path_escape id)
            ≡ some (print_uuid id)
      located id m =
          ap
            (λ t.
              match (codes "/api/v1/signal-messages/") [] (codes "/api/v1/signal-messages/" ++ t))
            (sym (append-nil (path_escape (print_uuid id))))
          ∙ m (codes "/api/v1/signal-messages/") [] (print_uuid id)

      -- Each call of the client with an id reaches the method of the same name of the implementation,
      -- with that id and, for an update, that status, and is never refused: the router takes a path
      -- apart as the client put it together, a UUID is read as it is printed, and a body decoded as it
      -- was encoded.
      pub calls_reach :
          (id : ℕ) (target : Status)
          → ((before after t : Text)
              → match before after (before ++ (path_escape t ++ after)) ≡ some t)
          → parse_uuid (print_uuid id) ≡ some id
          → decode (encode target) ≡ some target
          → Reaches id target
      unfolding serve get_signal_message update_signal_message resend_signal_message text_eq
      calls_reach id target m u d = record {
        gets = rw (located id m, u) refl;
        updates = rw (located id m, u, d) refl;
        resends =
            rw (m (codes "/api/v1/signal-messages/") (codes "/resend") (print_uuid id), u) refl;
      }
