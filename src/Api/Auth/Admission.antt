-- ===== src/Api/Auth/Admission.antt =====
-- Which requests that change something are let in.
use rag_anotacoes_sdd.Prelude.{
  ◌≡◌, refl, ◌⊎◌, inl, inr, true, false, Option, none, some, [], ◌∷◌, first, select, null,
  Bool-cases, Option-cases, Instant, ok, err, Error,
}
use rag_anotacoes_sdd.Text.{Text, text_eq}
use rag_anotacoes_sdd.Domain.Users.{Session, is_active}
use rag_anotacoes_sdd.Config.{Settings}
use rag_anotacoes_sdd.Persistence.Transactions.{transaction}
use rag_anotacoes_sdd.Persistence.Accounts as Accounts
use rag_anotacoes_sdd.Services.Gateways.{session_by_hash}
use rag_anotacoes_sdd.Services.Authentication
use rag_anotacoes_sdd.Services.Authentication.{Hashing, State, authenticate, validate_csrf}
use rag_anotacoes_sdd.Api.Auth.{
  Request, session_cookie_name, cookie_of, is_foreign, header_or_empty, current_session,
  checked_session, mutation_session, unauthenticated, foreign_origin, invalid_csrf, session_of,
}

-- The stored session of a token.
abbrev pub stored_session : Hashing → Text → State → Option Session
stored_session h token s =
    first (select (λ r. text_eq r.token_hash (h.sha256 token)) s.tables.sessions)

-- The request carries a session cookie whose hash is stored with `session`, which is neither
-- revoked nor expired.
pub record IsAuthenticated (h : Hashing) (configuration : Settings) (now : Instant)
    (request : Request) (s : State) (session : Session) : Type 0 where
  pub token : Text
  pub sent : cookie_of (session_cookie_name configuration) request.cookies ≡ some token
  pub some_token : null token ≡ false
  pub kept : stored_session h token s ≡ some session
  pub active : is_active session now ≡ true

-- Besides, the request names no foreign origin and its CSRF header has the session's hash.
pub record IsAdmitted (h : Hashing) (configuration : Settings) (now : Instant) (request : Request)
    (s : State) (session : Session) : Type 0 where
  pub authenticated : IsAuthenticated h configuration now request s session
  pub own_origin : is_foreign configuration request.origin ≡ false
  pub csrf : text_eq session.csrf_token_hash (h.sha256 (header_or_empty request.csrf_token)) ≡ true

-- A refused request answers 401 or 403.
abbrev pub IsRefusal : Error → Type 0
IsRefusal e = (e ≡ unauthenticated) ⊎ ((e ≡ foreign_origin) ⊎ (e ≡ invalid_csrf))

module _ (h : Hashing) (configuration : Settings) (now : Instant) where
  authenticate_lem :
      (token : Text) (s : State)
      → authenticate h now token s ≡ (Authentication.live h now (stored_session h token s), s)
  unfolding authenticate session_by_hash Accounts.by_token_hash transaction
  authenticate_lem token s = refl

  abbrev Lives : Text → State → Session → Type 0
  Lives token s session =
      (null token ≡ false)
      × (stored_session h token s ≡ some session)
      × (is_active session now ≡ true)

  session_of_cases :
      (o : Option Text) (s : State)
      → ((session : Session) × (token : Text) × (o ≡ some token)
          × Lives token s session
          × (session_of h configuration now o s ≡ (ok session, s)))
        ⊎ (session_of h configuration now o s ≡ (err unauthenticated, s))
  session_of_cases none s = inr refl
  session_of_cases (some []) s = inr refl
  session_of_cases (some (c ∷ t)) s = elim (Option-cases (stored_session h (c ∷ t) s)) [
    | inl e ↦ inr (rw (authenticate_lem (c ∷ t) s, e) refl)
    | inr (session, e) ↦ elim (Bool-cases (is_active session now)) [
      | inl live ↦
          inl (session, c ∷ t, refl, (refl, e, live), rw (authenticate_lem (c ∷ t) s, e, live) refl)
      | inr ended ↦ inr (rw (authenticate_lem (c ∷ t) s, e, ended) refl)
    ]
  ]

  pub current_session_cases :
      (request : Request) (s : State)
      → ((session : Session) × IsAuthenticated h configuration now request s session
          × (current_session h configuration now request s ≡ (ok session, s)))
        ⊎ (current_session h configuration now request s ≡ (err unauthenticated, s))
  unfolding current_session
  current_session_cases request s =
      elim (session_of_cases (cookie_of (session_cookie_name configuration) request.cookies) s) [
        | inl (session, token, sent, (some_token, kept, active), e) ↦ inl (
          session,
          record {
            token = token;
            sent = sent;
            some_token = some_token;
            kept = kept;
            active = active;
          },
          e,
        )
        | inr e ↦ inr e
      ]

  checked_session_cases :
      (request : Request) (session : Session)
      → ((is_foreign configuration request.origin ≡ false)
          × (text_eq session.csrf_token_hash (h.sha256 (header_or_empty request.csrf_token)) ≡ true)
          × (checked_session h configuration request session ≡ ok session))
        ⊎ ((e : Error) × IsRefusal e × (checked_session h configuration request session ≡ err e))
  unfolding checked_session validate_csrf
  checked_session_cases request session =
      elim (Bool-cases (is_foreign configuration request.origin)) [
        | inl e ↦ inr (foreign_origin, inr (inl refl), rw e refl)
        | inr e ↦
            elim (Bool-cases
              (text_eq session.csrf_token_hash (h.sha256 (header_or_empty request.csrf_token)))) [
                | inl e' ↦ inl (e, e', rw (e, e') refl)
                | inr e' ↦ inr (invalid_csrf, inr (inr refl), rw (e, e') refl)
              ]
      ]

  pub mutation_session_cases :
      (request : Request) (s : State)
      → ((session : Session) × IsAdmitted h configuration now request s session
          × (mutation_session h configuration now request s ≡ (ok session, s)))
        ⊎ ((e : Error) × IsRefusal e
            × (mutation_session h configuration now request s ≡ (err e, s)))
  unfolding mutation_session
  mutation_session_cases request s = elim (current_session_cases request s) [
    | inr e ↦ inr (unauthenticated, inl refl, rw e refl)
    | inl (session, known, e) ↦ elim (checked_session_cases request session) [
      | inl (own_origin, csrf, e') ↦ inl (
        session,
        record { authenticated = known; own_origin = own_origin; csrf = csrf },
        rw (e, e') refl,
      )
      | inr (error, refusal, e') ↦ inr (error, refusal, rw (e, e') refl)
    ]
  ]
