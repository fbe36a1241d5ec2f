-- ===== src/Services/Notes/Updates.antt =====
-- What an update of `NoteService` that returns has read and made.
use rag_anotacoes_sdd.Prelude.{
  ℕ, ◌≡◌, ap, ◌∙◌, Option, some, Uuid, Instant, ok, arith, version_conflict,
}
use rag_anotacoes_sdd.Text.{Text}
use rag_anotacoes_sdd.Domain.Notes
use rag_anotacoes_sdd.Domain.Notes.{Note}
use rag_anotacoes_sdd.Services.Notes.{NoteStore, kept, lift, then_inversion, ◌>>=◌, get, update}

-- A service's update that returns has read the note and made the new one of it.
pub update_inversion :
    {W : Type 0} (store : NoteStore W) (user_id job_id : Uuid) (now : Instant) (note_id : Uuid)
    (title content : Option Text) (expected : ℕ) (w : W) {n : Note} {w' : W}
    → update store user_id job_id now note_id title content expected w ≡ (ok n, w')
    → (current : Note) × (middle : W) × (get store user_id note_id w ≡ (ok current, middle))
      × (Notes.update current title content now (some expected) ≡ ok n)
unfolding update
update_inversion store user_id job_id now note_id title content expected w {n} h =
    let (current, first_world, got, h') =
      then_inversion (get store user_id note_id)
        (λ current. lift (Notes.update current title content now (some expected)) >>= λ updated.
          store.save job_id updated expected >>= λ saved.
          lift (kept version_conflict saved) >>= λ _. lift (ok updated))
        w h in
    let (updated, second_world, made, h'') =
      then_inversion (lift (Notes.update current title content now (some expected)))
        (λ updated. store.save job_id updated expected >>= λ saved.
          lift (kept version_conflict saved) >>= λ _. lift (ok updated))
        first_world h' in
    let (saved, third_world, written, h3) =
      then_inversion (store.save job_id updated expected)
        (λ saved. lift (kept version_conflict saved) >>= λ _. lift (ok updated)) second_world h'' in
    let (_, last_world, agreed, h4) =
      then_inversion (lift (kept version_conflict saved)) (λ _. lift (ok updated)) third_world h3 in
    let same : updated ≡ n = ground (arith, h4) in
    (current, first_world, got, ap (λ r. r.0) made ∙ ap ok same)
