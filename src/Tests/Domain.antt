-- ===== src/Tests/Domain.antt =====
-- Runs and instances for the entities of app/src/notes_rag/domain.
use rag_anotacoes_sdd.Prelude.{
  ℕ, ◌+◌, ◌≤◌, ◌<◌, ◌^◌, ◌≡◌, ◌≢◌, ◌↔◌, refl, true, false, none, some, List, [], ◌∷◌, codes,
  seconds, length, ok, arith, if◌then◌else◌, leb, ◌&&◌,
}
use rag_anotacoes_sdd.Text.{
  Text, is_space, lstrip, rstrip, strip, split_from, split, paragraphs_from, join,
}
use rag_anotacoes_sdd.Domain.Notes
use rag_anotacoes_sdd.Domain.Notes.{Note, title_maximum, content_maximum}
use rag_anotacoes_sdd.Domain.Notes.Validity.{
  create-IsValid, create-ok_iff, update-IsValid, update_refuses,
}
use rag_anotacoes_sdd.Domain.Notes.Validity
use rag_anotacoes_sdd.Domain.Users
use rag_anotacoes_sdd.Domain.Users.Validity.{IsWellFormed, create-IsWellFormed}
use rag_anotacoes_sdd.Domain.Chat
use rag_anotacoes_sdd.Domain.Chat.{
  Source, ChatResponse, Intent, chat_response, by_id, verify_from, verified_sources,
}
use rag_anotacoes_sdd.Domain.Chat.Replies.{IsCoherent, chat_response-IsCoherent}
use rag_anotacoes_sdd.Domain.Chat.Sources.{
  CitesExactly, ids, verified_sources-CitesExactly, verified_sources-none_iff,
}
use rag_anotacoes_sdd.Domain.Chunking
use rag_anotacoes_sdd.Domain.Chunking.{TextChunk, chunk_note, default_target, default_overlap}
use rag_anotacoes_sdd.Domain.Chunking.Counts.{IsChunking}
use rag_anotacoes_sdd.Domain.Chunking.Acceptance.{
  HasRoom, chunk_note-IsChunking, chunk_note-ok_iff, chunk_note-total,
}
use rag_anotacoes_sdd.Domain.Jobs
use rag_anotacoes_sdd.Domain.Jobs.{IndexingJob, pending_job, claim, is_claimable}
use rag_anotacoes_sdd.Domain.Jobs.Lifecycle.{Step, Reach, Reach-IsValid, claim-lease}
use rag_anotacoes_sdd.Domain.Jobs.Lifecycle
use rag_anotacoes_sdd.Domain.Jobs.Retries
use rag_anotacoes_sdd.Domain.Jobs.Retries.{attempt-backoff, attempts_bounded}

text : Unit {0}
unfolding is_space lstrip rstrip strip split_from paragraphs_from join
text = tt

chunking : Unit {0}
unfolding text Chunking.windows Chunking.add_paragraph Chunking.add_paragraphs Chunking.paragraphs
    Chunking.pieces_of Chunking.chunks_from Chunking.chunk_trimmed chunk_note
chunking = tt

strip_example : strip (codes "  a b ") ≡ codes "a b"
unfolding text
strip_example = refl

split_example : split (codes " um  dois ") ≡ codes "um" ∷ codes "dois" ∷ []
unfolding text
split_example = refl

abbrev chunks : List TextChunk
chunks =
    record { ordinal = 0; text = codes "T\n\na b"; token_count = 3 }
    ∷ record { ordinal = 1; text = codes "T\n\nb c"; token_count = 3 }
    ∷ []

chunks_run : chunk_note (codes " T ") (codes "a b c") 3 1 ≡ ok chunks
unfolding chunking
chunks_run = refl

chunk_note-IsChunking_example : IsChunking (codes " T ") (codes "a b c") 3 1 chunks
chunk_note-IsChunking_example = chunk_note-IsChunking (codes " T ") (codes "a b c") 3 1 chunks_run

chunk_note-ok_iff_example :
    ((cs : List TextChunk) × (chunk_note (codes " T ") (codes "a b c") 3 1 ≡ ok cs))
    ↔ HasRoom (codes " T ") (codes "a b c") 3 1
chunk_note-ok_iff_example = chunk_note-ok_iff (codes " T ") (codes "a b c") 3 1

abbrev docker : Note
docker = record {
  id = 7;
  user_id = 1;
  title = codes "Docker";
  content = codes "Estudar Docker.";
  version = 1;
  semantic_status = Notes.pending;
  semantic_error_code = none;
  semantic_updated_at = some 100;
  created_at = 100;
  updated_at = 100;
}

docker_created : Notes.create 7 1 (codes " Docker ") (codes "Estudar Docker.\n") 100 ≡ ok docker
unfolding text Notes.create Notes.validate_text
docker_created = refl

docker-IsValid : Validity.IsValid docker
docker-IsValid =
    (create-IsValid 7 1 (codes " Docker ") (codes "Estudar Docker.\n") 100 docker_created).0

create-IsValid_example :
    Validity.IsValid docker
    × (docker.id ≡ 7)
    × (docker.user_id ≡ 1)
    × (docker.version ≡ 1)
    × (docker.semantic_status ≡ Notes.pending)
    × (docker.created_at ≡ 100)
create-IsValid_example =
    create-IsValid 7 1 (codes " Docker ") (codes "Estudar Docker.\n") 100 docker_created

create-ok_iff_example : ((n : Note) × (Notes.create 7 1 (codes "  ") (codes "x") 100 ≡ ok n)) ↔ (
    (strip (codes "  ") ≢ [])
    × (length (strip (codes "  ")) ≤ title_maximum)
    × (strip (codes "x") ≢ [])
    × (length (strip (codes "x")) ≤ content_maximum))
create-ok_iff_example = create-ok_iff 7 1 (codes "  ") (codes "x") 100

abbrev compose : Note
compose = record docker {
  title = codes "Compose";
  version = 2;
  semantic_updated_at = some 200;
  updated_at = 200;
}

compose_updated : Notes.update docker (some (codes "Compose ")) none 200 (some 1) ≡ ok compose
unfolding text Notes.update Notes.validate_text
compose_updated = refl

update-IsValid_example :
    Validity.IsValid compose
    × (compose.id ≡ 7)
    × (compose.user_id ≡ 1)
    × (compose.created_at ≡ 100)
    × (compose.version ≡ 1 + 1)
    × (compose.semantic_status ≡ Notes.pending)
    × (compose.updated_at ≡ 200)
update-IsValid_example =
    update-IsValid docker (some (codes "Compose ")) none 200 (some 1) docker-IsValid compose_updated

chunk_note-total_example :
    (cs : List TextChunk) × (chunk_note
        (codes "Docker")
        (codes "Estudar Docker.")
        default_target
        default_overlap
      ≡ ok cs)
chunk_note-total_example = chunk_note-total docker docker-IsValid

-- `casefold` on the ASCII letters.
lower : Text → Text
lower [] = []
lower (c ∷ s) = (if leb 65 c && leb c 90 then c + 32 else c) ∷ lower s

abbrev alice : Users.User
alice = record {
  id = 1;
  username = codes "Alice";
  username_canonical = codes "alice";
  password_hash = codes "$argon2id$";
  created_at = 50;
  updated_at = 50;
}

alice_created : Users.create lower 1 (codes " Alice") (codes "$argon2id$") 50 ≡ ok alice
unfolding text Users.create lower
alice_created = refl

create-IsWellFormed_example :
    IsWellFormed lower alice
    × (alice.id ≡ 1)
    × (alice.username_canonical ≡ Users.canonicalize_username lower (codes " Alice"))
create-IsWellFormed_example =
    create-IsWellFormed lower 1 (codes " Alice") (codes "$argon2id$") 50 alice_created

abbrev sources : List Source
sources =
    record { note_id = 7; title = codes "Docker"; excerpt = codes "x" }
    ∷ record { note_id = 8; title = codes "Rust"; excerpt = codes "y" }
    ∷ []

abbrev cited : List Source
cited = record { note_id = 8; title = codes "Rust"; excerpt = codes "y" } ∷ []

cited_run : verified_sources (8 ∷ 8 ∷ []) sources ≡ some cited
unfolding verified_sources by_id
cited_run = refl

verified_sources-CitesExactly_example : CitesExactly (8 ∷ 8 ∷ []) sources cited
verified_sources-CitesExactly_example = verified_sources-CitesExactly (8 ∷ 8 ∷ []) sources cited_run

verified_sources-none_iff_example :
    (verified_sources (7 ∷ 9 ∷ []) sources ≡ none)
    ↔ ((k : ℕ) × (Chat.member k (7 ∷ 9 ∷ []) ≡ true) × (Chat.member k (ids sources) ≡ false))
verified_sources-none_iff_example = verified_sources-none_iff (7 ∷ 9 ∷ []) sources

abbrev reply : ChatResponse
reply = record {
  intent = Intent.rag;
  answer = codes "sim";
  needs_clarification = false;
  sources = cited;
  created_note = none;
}

chat_response-IsCoherent_example :
    ((chat_response reply ≡ ok reply) → IsCoherent reply)
    × (IsCoherent reply → chat_response reply ≡ ok reply)
chat_response-IsCoherent_example = chat_response-IsCoherent reply

abbrev fresh_job : IndexingJob
fresh_job = pending_job 11 7 1 1 100

abbrev claimed_job : IndexingJob
claimed_job = record fresh_job {
  status = Jobs.processing;
  attempt_count = 1;
  claimed_at = some 200;
  lease_expires_at = some (200 + seconds 60);
}

claimed_run : claim fresh_job 200 60 ≡ ok claimed_job
unfolding claim pending_job
claimed_run = refl

Reach-IsValid_example : Lifecycle.IsValid claimed_job
Reach-IsValid_example =
    Reach-IsValid 11 7 1 1 100
      (Reach.next Reach.here (Step.claims fresh_job claimed_job 200 60 claimed_run))

claim-lease_example : (is_claimable claimed_job 60000200 ≡ true) ↔ (200 + seconds 60 ≤ 60000200)
claim-lease_example = claim-lease fresh_job claimed_job 200 60000200 60 claimed_run

attempt-backoff_example :
    (k : IndexingJob) × (Retries.attempt 60 (codes "e") (200, 300) fresh_job ≡ ok k)
    × (k.attempt_count ≡ 0 + 1)
    × (k.available_at ≡ 300 + seconds (2 ^ 0))
    × ((k.status ≡ Jobs.failed) ↔ (◌≡◌ {A = ℕ} 0 4))
    × ((k.status ≡ Jobs.retry_wait) ↔ (0 < 4))
unfolding pending_job
attempt-backoff_example =
    attempt-backoff 60 0 (codes "e") 200 300 fresh_job (omega arith) refl refl (omega arith)

abbrev retried_job : IndexingJob
retried_job = record claimed_job {
  status = Jobs.retry_wait;
  available_at = 300 + seconds 1;
  lease_expires_at = none;
  last_error_code = some (codes "e");
}

failed_once :
    Retries.attempts 60 (codes "e") ((200, 300) ∷ []) (pending_job 11 7 1 1 100) ≡ ok retried_job
unfolding claim pending_job Jobs.fail_transient
failed_once = refl

attempts_bounded_example :
    (length {A = Retries.Attempt} ((200, 300) ∷ []) ≤ 5)
    × (retried_job.attempt_count ≡ length {A = Retries.Attempt} ((200, 300) ∷ []))
    × ((retried_job.status ≡ Jobs.failed) ↔ (length {A = Retries.Attempt} ((200, 300) ∷ []) ≡ 5))
attempts_bounded_example =
    attempts_bounded 11 7 1 1 100 60 (codes "e") ((200, 300) ∷ []) failed_once
