-- ===== src/Persistence/Ownership/Kept.antt =====
-- What the writes of one user keep: the ownership of all rows, and every row of another user.
use rag_anotacoes_sdd.Prelude.{
  ◌≡◌, ◌≢◌, refl, ap, ◌∙◌, false, not, ◌&&◌, some, List, [], ◌∷◌, ◌++◌, All, ◌==◌, Uuid, arith,
}
use rag_anotacoes_sdd.Persistence.Tables.{Tables, NoteRecord, update_where}
use rag_anotacoes_sdd.Persistence.Inserts.{has_note}
use rag_anotacoes_sdd.Persistence.Notes.{without_note}
use rag_anotacoes_sdd.Persistence.Notes.Strict.{AreDistinct}
use rag_anotacoes_sdd.Persistence.Ownership.{
  owner_of, IsOwned, rows_of, Write, Writes, note_added, note_changed, note_deleted, job_added,
  job_changed, jobs_deleted, chunk_added, chunks_deleted, done, next,
}
use rag_anotacoes_sdd.Persistence.Ownership.Lists.{
  select-own, select-update_where, select-select, select-key, All-select, All-snoc,
  All-update_where, All-impl, AreDistinct-append, AreDistinct-update_where, AreDistinct-select,
  owner_of-append, owner_of_new, owner_of-update_where, owner_of-select,
}

-- The three fields under another list of notes with the same owners.
moved :
    {t : Tables} {ns : List NoteRecord}
    → ((id u : Uuid) → owner_of t.notes id ≡ some u → owner_of ns id ≡ some u)
    → IsOwned t
    → AreDistinct ns
    → All (λ n. owner_of ns n.id ≡ some n.user_id) ns
    → IsOwned (record t { notes = ns })
moved f v d w = record {
  ids = d;
  notes = w;
  jobs = All-impl (λ j. f j.note_id j.user_id) _ v.jobs;
  chunks = All-impl (λ c. f c.note_id c.user_id) _ v.chunks;
}

added-IsOwned :
    {t : Tables} (n : NoteRecord)
    → has_note n.id t ≡ false
    → IsOwned t
    → IsOwned (record t { notes = t.notes ++ n ∷ [] })
added-IsOwned {t} n new v =
    moved (λ id u. owner_of-append t.notes n id u) v (AreDistinct-append t.notes n new v.ids)
      (All-snoc _ t.notes n
        (All-impl (λ m. owner_of-append t.notes n m.id m.user_id) t.notes v.notes)
        (owner_of_new t.notes n new))

changed-IsOwned :
    {t : Tables} (u : Uuid) (n : NoteRecord)
    → n.user_id ≡ u
    → IsOwned t
    → IsOwned
        (record t { notes = update_where (λ m. m.id == n.id && m.user_id == u) (λ _. n) t.notes })
changed-IsOwned {t} u n own v =
    moved (λ id w h. owner_of-update_where t.notes n id u own ∙ h) v
      (AreDistinct-update_where t.notes n u v.ids)
      (All-update_where _ (λ m. m.id == n.id && m.user_id == u) (λ _. n) t.notes
        (All-impl (λ m h. owner_of-update_where t.notes n m.id u own ∙ h) t.notes v.notes)
        (λ m e h. ground (arith, own)))

deleted-IsOwned : {t : Tables} (id : Uuid) → IsOwned t → IsOwned (without_note id t)
deleted-IsOwned {t} id v = record {
  ids = AreDistinct-select t.notes (λ n. not (n.id == id)) v.ids;
  notes =
      All-select (λ n. not (n.id == id)) t.notes v.notes
        (λ n e h. owner_of-select t.notes id n.id (ground arith) ∙ h);
  jobs =
      All-select (λ j. not (j.note_id == id)) t.jobs v.jobs
        (λ j e h. owner_of-select t.notes id j.note_id (ground arith) ∙ h);
  chunks =
      All-select (λ c. not (c.note_id == id)) t.chunks v.chunks
        (λ c e h. owner_of-select t.notes id c.note_id (ground arith) ∙ h);
}

-- One write keeps the ownership of all rows.
Write-IsOwned : {u : Uuid} {t t' : Tables} → Write u t t' → IsOwned t → IsOwned t'
Write-IsOwned (note_added n own new e) v = rw e (added-IsOwned n new v)
Write-IsOwned {u} (note_changed n own e) v = rw e (changed-IsOwned u n own v)
Write-IsOwned (note_deleted id own e) v = rw e (deleted-IsOwned id v)
Write-IsOwned {u} {t} (job_added j own of e) v = rw e (record {
  ids = v.ids;
  notes = v.notes;
  jobs = All-snoc _ t.jobs j v.jobs (rw own of);
  chunks = v.chunks;
})
Write-IsOwned {u} {t} (job_changed j own of e) v = rw e (record {
  ids = v.ids;
  notes = v.notes;
  jobs = All-update_where _ _ (λ _. j) t.jobs v.jobs (λ _ _ _. rw own of);
  chunks = v.chunks;
})
Write-IsOwned {u} {t} (jobs_deleted p e) v = rw e (record {
  ids = v.ids;
  notes = v.notes;
  jobs = All-select _ t.jobs v.jobs (λ _ _ h. h);
  chunks = v.chunks;
})
Write-IsOwned {u} {t} (chunk_added c own of e) v = rw e (record {
  ids = v.ids;
  notes = v.notes;
  jobs = v.jobs;
  chunks = All-snoc _ t.chunks c v.chunks (rw own of);
})
Write-IsOwned {u} {t} (chunks_deleted p e) v = rw e (record {
  ids = v.ids;
  notes = v.notes;
  jobs = v.jobs;
  chunks = All-select _ t.chunks v.chunks (λ _ _ h. h);
})

pub Writes-IsOwned : {u : Uuid} {t t' : Tables} → Writes u t t' → IsOwned t → IsOwned t'
Writes-IsOwned done v = v
Writes-IsOwned (next ws w) v = Write-IsOwned w (Writes-IsOwned ws v)

-- A row of a note whose owner is known is of that owner.
same_owner :
    {A : Type 0} (note owner : A → Uuid) (xs : List A) (ns : List NoteRecord) (id u : Uuid)
    → owner_of ns id ≡ some u
    → All (λ x. owner_of ns (note x) ≡ some (owner x)) xs
    → All (λ x. note x ≡ id → owner x ≡ u) xs
same_owner note owner xs ns id u own =
    All-impl
      (λ x h e.
        (let same : owner_of ns (note x) ≡ owner_of ns id = ap (owner_of ns) e in
          ground (arith, h, same, own)))
      xs

Write-rows_of :
    {u : Uuid} {t t' : Tables} (v : Uuid)
    → u ≢ v
    → IsOwned t
    → Write u t t'
    → rows_of v t' ≡ rows_of v t
unfolding rows_of
Write-rows_of {u} {t} v apart o (note_added n own new e) =
    rw (e, select-own (λ m. m.user_id) u v apart t.notes n own) refl
Write-rows_of {u} {t} v apart o (note_changed n own e) =
    rw (e, select-update_where (λ m. m.user_id) u v apart (λ m. m.id == n.id) n t.notes own) refl
Write-rows_of {u} {t} v apart o (note_deleted id own e) =
    rw
      (
        e,
        select-key (λ m. m.user_id) u v apart (λ m. m.id) id t.notes
            (same_owner (λ m. m.id) (λ m. m.user_id) t.notes t.notes id u own o.notes),
        select-key (λ k. k.user_id) u v apart (λ k. k.note_id) id t.jobs
            (same_owner (λ k. k.note_id) (λ k. k.user_id) t.jobs t.notes id u own o.jobs),
        select-key (λ c. c.user_id) u v apart (λ c. c.note_id) id t.chunks
            (same_owner (λ c. c.note_id) (λ c. c.user_id) t.chunks t.notes id u own o.chunks),
      )
      refl
Write-rows_of {u} {t} v apart o (job_added j own of e) =
    rw (e, select-own (λ k. k.user_id) u v apart t.jobs j own) refl
Write-rows_of {u} {t} v apart o (job_changed j own of e) =
    rw (e, select-update_where (λ k. k.user_id) u v apart (λ k. k.id == j.id) j t.jobs own) refl
Write-rows_of {u} {t} v apart o (jobs_deleted p e) =
    rw (e, select-select (λ k. k.user_id) u v apart p t.jobs) refl
Write-rows_of {u} {t} v apart o (chunk_added c own of e) =
    rw (e, select-own (λ k. k.user_id) u v apart t.chunks c own) refl
Write-rows_of {u} {t} v apart o (chunks_deleted p e) =
    rw (e, select-select (λ k. k.user_id) u v apart p t.chunks) refl

pub Writes-rows_of :
    {u : Uuid} {t t' : Tables} (v : Uuid)
    → u ≢ v
    → IsOwned t
    → Writes u t t'
    → rows_of v t' ≡ rows_of v t
Writes-rows_of v apart o done = refl
Writes-rows_of v apart o (next ws w) =
    Write-rows_of v apart (Writes-IsOwned ws o) w ∙ Writes-rows_of v apart o ws
