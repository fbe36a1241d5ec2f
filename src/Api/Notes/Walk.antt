-- ===== src/Api/Notes/Walk.antt =====
-- A client that reads the pages of `list_notes`, following each `next_cursor`.
use mathlib.Core.List.{map-append}
use rag_anotacoes_sdd.Prelude.{
  ℕ, zero, suc, ◌+◌, ◌<◌, ◌≡◌, refl, sym, ap, ◌∙◌, inl, inr, true, ◌&&◌, Option, none, some, List,
  [], ◌∷◌, ◌++◌, map, take, drop, length, take-append-drop, length-drop, select, ltb, leb, ◌==◌,
  Uuid, Instant, Bool-cases, arith, Result, ok,
}
use rag_anotacoes_sdd.Text.{Text}
use rag_anotacoes_sdd.Domain.Notes.{Note}
use rag_anotacoes_sdd.Domain.Users.{Session}
use rag_anotacoes_sdd.Config.{Settings}
use rag_anotacoes_sdd.Persistence.Transactions.{transaction}
use rag_anotacoes_sdd.Persistence.Notes as Repository
use rag_anotacoes_sdd.Persistence.Notes.{is_after, sort_notes}
use rag_anotacoes_sdd.Persistence.Notes.Strict.{AreDistinct, sort_notes-IsStrict, sort_notes-select}
use rag_anotacoes_sdd.Services.Authentication.{Hashing, State, Action, pure, ◌>>=◌}
use rag_anotacoes_sdd.Services.Gateways
use rag_anotacoes_sdd.Services.Notes.Stored.{prepare_lem}
use rag_anotacoes_sdd.Persistence.Ownership.Lists.{AreDistinct-select}
use rag_anotacoes_sdd.Services.Isolation.{Reachable}
use rag_anotacoes_sdd.Services.Isolation.Reach.{Reachable-IsOwned}
use rag_anotacoes_sdd.Services.Isolation.Reads.{own_first, begun}
use rag_anotacoes_sdd.Api.Auth.{Request, current_session}
use rag_anotacoes_sdd.Api.Cursors.{Formats, encode_cursor}
use rag_anotacoes_sdd.Api.Cursors.RoundTrip.{AreInverse}
use rag_anotacoes_sdd.Api.Notes.Cuts.{before_of-encode_cursor, behind, page_of_last, page_of_more}
use rag_anotacoes_sdd.Api.Notes.{
  NoteResponse, NotePage, note_response, before_of, page_of, list_notes,
}

-- The notes of a user, newest change first.
abbrev pub notes_in_order : Uuid → State → List Note
notes_in_order u s = sort_notes (select (λ r. r.user_id == u) s.tables.notes)

listed :
    (u : Uuid) (limit : ℕ) (before : Option (Instant × Uuid)) (s : State)
    → AreDistinct (select (λ r. r.user_id == u) s.tables.notes)
    → Gateways.list_notes u limit before s.tables
      ≡ (ok (take limit (select (is_after before) (notes_in_order u s))), s.tables)
unfolding Gateways.list_notes Repository.list transaction
listed u limit before s distinct =
    rw
      (
        prepare_lem u (begun s.tables),
        own_first u (is_after before) s.tables.notes,
        sort_notes-select (is_after before) (select (λ r. r.user_id == u) s.tables.notes) distinct,
      )
      refl

abbrev answer : List NoteResponse → State → Result (List NoteResponse) × State
answer l s = (ok l, s)

select_all : (ns : List Note) → select (is_after none) ns ≡ ns
select_all [] = refl
select_all (n ∷ ns) = ap (λ l. n ∷ l) (select_all ns)

module _ (h : Hashing) (configuration : Settings) (wording : ℕ → Text) (f : Formats) (now : Instant)
    (request : Request) (limit : ℕ) where
  abbrev page : Option Text → Action NotePage
  page cursor = list_notes h configuration wording f now request cursor limit

  -- At most `fuel` pages, from a cursor on.
  unfoldable pub follow : ℕ → Option Text → Action (List NoteResponse)
  follow zero cursor = pure []
  follow (suc fuel) cursor = do
    page ← list_notes h configuration wording f now request cursor limit
    elim page.next_cursor [
      | none ↦ pure page.items
      | some next ↦ (do rest ← follow fuel (some next); pure (page.items ++ rest))
    ]

  list_notes_lem :
      (session : Session) (s : State) (cursor : Option Text) (before : Option (Instant × Uuid))
      → current_session h configuration now request s ≡ (ok session, s)
      → (leb 1 limit && leb limit 100) ≡ true
      → before_of f cursor ≡ ok before
      → AreDistinct (select (λ r. r.user_id == session.user_id) s.tables.notes)
      → list_notes h configuration wording f now request cursor limit s ≡ (
        ok (
            page_of f limit
              (take (limit + 1) (select (is_after before) (notes_in_order session.user_id s)))),
        s,
      )
  unfolding list_notes
  list_notes_lem session s cursor before known fits read distinct =
      rw (known, fits, read, listed session.user_id (limit + 1) before s distinct) refl

  shorter :
      (fuel : ℕ) (rest : List Note)
      → (leb 1 limit && leb limit 100) ≡ true
      → ltb limit (length rest) ≡ true
      → length rest < suc fuel
      → length (drop limit rest) < fuel
  shorter fuel rest fits e enough = (let d = length-drop limit rest in ground (arith, d))

  -- The rest of the list, from a place in it on.
  followed :
      (fuel : ℕ) (session : Session) (s : State) (cursor : Option Text)
      (before : Option (Instant × Uuid)) (past rest : List Note)
      → current_session h configuration now request s ≡ (ok session, s)
      → (leb 1 limit && leb limit 100) ≡ true
      → AreInverse f
      → AreDistinct (select (λ r. r.user_id == session.user_id) s.tables.notes)
      → before_of f cursor ≡ ok before
      → notes_in_order session.user_id s ≡ past ++ rest
      → select (is_after before) (notes_in_order session.user_id s) ≡ rest
      → length rest < fuel
      → follow fuel cursor s ≡ (ok (map note_response rest), s)
  unfolding follow page_of
  followed zero session s cursor before past rest known fits laws distinct read whole left enough =
      ground arith
  followed (suc fuel) session s cursor before past rest known fits laws distinct read whole left
        enough =
      let shown : list_notes h configuration wording f now request cursor limit s
          ≡ (ok (page_of f limit (take (limit + 1) rest)), s) =
        list_notes_lem session s cursor before known fits read distinct
        ∙ ap (λ (l : List Note). (ok (page_of f limit (take (limit + 1) l)), s)) left in
      elim (Bool-cases (ltb limit (length rest))) [
        | inr e ↦ rw (shown, page_of_last f limit rest e) refl
        | inl e ↦
            let (ns, n, cut_at, more) = page_of_more f limit rest (ground (arith, fits)) e in
            let (whole', left') =
              behind (notes_in_order session.user_id s) past rest ns (drop limit rest) n
                (sort_notes-IsStrict (select (λ r. r.user_id == session.user_id) s.tables.notes)
                  distinct)
                whole cut_at in
            let later =
              followed fuel session s (some (encode_cursor f n)) (some (n.updated_at, n.id))
                (past ++ ns ++ n ∷ []) (drop limit rest) known fits laws distinct
                (before_of-encode_cursor f n laws) whole' left' (shorter fuel rest fits e enough) in
            rw (shown, more, later)
              (ap (λ (l : List NoteResponse). answer l s)
                (sym (map-append note_response (take limit rest) (drop limit rest))
                  ∙ ap (map note_response) (take-append-drop limit rest)))
      ]

  -- After any calls, a client with an active session that follows every `next_cursor` from the
  -- first page on reads all notes of its user, each once and newest change first, and changes
  -- nothing: the cursors end after at most one page more than the user has notes. The formats
  -- must read what they wrote, and the limit be one that the handler takes.
  pub follow_shows_all :
      (fuel : ℕ) (session : Session) (s : State)
      → current_session h configuration now request s ≡ (ok session, s)
      → Reachable s.tables
      → AreInverse f
      → (leb 1 limit && leb limit 100) ≡ true
      → length (notes_in_order session.user_id s) < fuel
      → follow fuel none s ≡ (ok (map note_response (notes_in_order session.user_id s)), s)
  unfolding before_of
  follow_shows_all fuel session s known reached laws fits enough =
      let distinct =
        AreDistinct-select s.tables.notes (λ r. r.user_id == session.user_id)
          (Reachable-IsOwned reached).ids in
      followed fuel session s none none [] (notes_in_order session.user_id s) known fits laws
        distinct refl refl (select_all (notes_in_order session.user_id s)) enough
