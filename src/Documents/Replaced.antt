-- ===== src/Documents/Replaced.antt =====
-- What an ingestion leaves in the chunk store, app/rag/vector_store.py and app/rag/ingestion.py.
use llm_gateway_rag.Common.{
  ◌≡◌, refl, sym, ◌∙◌, ap, ℕ, zero, suc, ◌≤◌, ◌==◌, Bool, true, false, ◌&&◌, Option, none, some,
  String, List, [], ◌∷◌, ◌++◌, take, drop, length, length-drop, take-append-drop, if◌then◌else◌,
  str_eq, arith, ltb, map,
}
use mathlib.Core.Path.{subst}
use llm_gateway_rag.Common.Text.{Text}
use llm_gateway_rag.Common.Fallible.{Fallible, ◌>>=◌, proceed-ends, proceed-keeps}
use llm_gateway_rag.Chunking.{Section, Chunk}
use llm_gateway_rag.Documents.{
  Point, DocumentCommand, DocumentRecord, DocumentUpload, DocumentServices, batch_size, points_of,
  upsert_batches, upsert_all, replace_document, put_record, title_of, record_of, register,
  ingest_sections, ingest,
}

-- A point's id: tenant, document and chunk.
abbrev pub PointId : Type 0
PointId = String × String × ℕ

module _ {V : Type 0} where
  abbrev pub has_id : PointId → Point V → Bool
  has_id (t, d, i) p = str_eq p.tenant_id t && str_eq p.doc_id d && p.chunk_index == i

  -- What is held under an id once these points are written over what was held before.
  unfoldable pub written : PointId → List (Point V) → Option (Point V) → Option (Point V)
  written id [] held = held
  written id (p ∷ ps) held = written id ps (if has_id id p then some p else held)

  written-append :
      (id : PointId) (ps qs : List (Point V)) (held : Option (Point V))
      → written id (ps ++ qs) held ≡ written id qs (written id ps held)
  unfolding written
  written-append id [] qs held = refl
  written-append id (p ∷ ps) qs held =
      written-append id ps qs (if has_id id p then some p else held)

-- the points of the document of a filter
abbrev pub in_document : String → String → PointId → Bool
in_document t d id = str_eq t id.0 && str_eq d id.1

-- What Qdrant does, by its documentation: an upsert writes its points over those of the same ids, and a
-- deletion by filter deletes the points of the document; the other calls leave the points alone.
pub record Points (v : DocumentServices) : Type 0 where
  pub held : PointId → v.State → Option (Point v.Vector)
  pub upserted :
      (id : PointId) (ps : List (Point v.Vector)) (s : v.State)
      → (v.upsert ps s).0 ≡ Fallible.done tt
      → held id (v.upsert ps s).1 ≡ written id ps (held id s)
  pub removed :
      (id : PointId) (t d : String) (s : v.State)
      → (v.delete_points t d s).0 ≡ Fallible.done tt
      → held id (v.delete_points t d s).1 ≡ (if in_document t d id then none else held id s)
  pub parsing_keeps :
      (id : PointId) (u : DocumentUpload) (s : v.State)
      → held id (v.parse_document u s).1 ≡ held id s
  pub embedding_keeps :
      (id : PointId) (ts : List Text) (s : v.State) → held id (v.embed_documents ts s).1 ≡ held id s
  pub clock_keeps : (id : PointId) (s : v.State) → held id (v.now s).1 ≡ held id s
  pub registry_keeps :
      (id : PointId) (cs : List DocumentCommand) (s : v.State)
      → held id (v.pipeline cs s).1 ≡ held id s

module _ (v : DocumentServices) (m : Points v) where
  open v use {State, Vector, upsert, delete_points}

  -- Batches write what one upsert of all would.
  upsert_batches-written :
      (fuel : ℕ) (ps : List (Point Vector)) (id : PointId) (s : State)
      → length ps ≤ fuel
      → (upsert_batches v fuel ps s).0 ≡ Fallible.done tt
      → m.held id (upsert_batches v fuel ps s).1 ≡ written id ps (m.held id s)
  unfolding upsert_batches written
  upsert_batches-written zero [] id s le h = refl
  upsert_batches-written zero (p ∷ ps) id s le h = absurd (omega (arith, le))
  upsert_batches-written (suc fuel) [] id s le h = refl
  upsert_batches-written (suc fuel) (p ∷ ps) id s le h =
      let batch = take batch_size (p ∷ ps) in
      let rest = drop batch_size (p ∷ ps) in
      let shorter : length rest ≤ fuel = omega (arith, le, length-drop batch_size (p ∷ ps)) in
      proceed-ends (λ s'. m.held id s' ≡ written id (p ∷ ps) (m.held id s)) _ (upsert batch s).0
        (upsert batch s).1
        (λ u e f.
          upsert_batches-written fuel rest id (upsert batch s).1 shorter f
          ∙ ap (written id rest) (m.upserted id batch s e)
          ∙ sym (written-append id batch rest (m.held id s))
          ∙ ap (λ qs. written id qs (m.held id s)) (take-append-drop batch_size (p ∷ ps)))
        h

  upsert_all-written :
      (o : Option (List (Point Vector))) (id : PointId) (s : State)
      → (upsert_all v o s).0 ≡ Fallible.done tt
      → (ps : List (Point Vector)) × (o ≡ some ps)
        × (m.held id (upsert_all v o s).1 ≡ written id ps (m.held id s))
  upsert_all-written none id s h = cc
  upsert_all-written (some ps) id s h =
      (ps, refl, upsert_batches-written (length ps) ps id s (omega arith) h)

  -- The points of these sections, with the vectors that the embedder gave for the texts of their chunks, over what
  -- was held before.
  abbrev pub ReplacedBy :
      String
      → DocumentUpload
      → List Section
      → PointId
      → Option (Point Vector)
      → State
      → State
      → Type 0
  ReplacedBy tenant_id upload sections id before s after =
      let title = title_of v upload sections in
      let chunks = v.chunk sections title in
      (vectors : List Vector) × (ps : List (Point Vector)) × ((v.embed_documents
          (map (λ (c : Chunk). c.text) chunks) s).0
        ≡ Fallible.done vectors)
      × (points_of v tenant_id (v.document_id upload.bytes) title chunks vectors ≡ some ps)
      × (m.held id after
          ≡ written id ps
              (if in_document tenant_id (v.document_id upload.bytes) id then none else before))

  -- The points of the document are those of its parsed sections, and no other point has changed.
  abbrev pub Replaced : String → DocumentUpload → PointId → State → State → Type 0
  Replaced tenant_id upload id s after =
      (sections : List Section) × ((v.parse_document upload s).0 ≡ Fallible.done sections)
      × ReplacedBy tenant_id upload sections id (m.held id s) (v.parse_document upload s).1 after

  replace_document-written :
      (tenant_id doc_id : String) (title : Text) (chunks : List Chunk) (vectors : List Vector)
      (id : PointId) (s : State)
      → (replace_document v tenant_id doc_id title chunks vectors s).0 ≡ Fallible.done tt
      → (ps : List (Point Vector)) × (points_of v tenant_id doc_id title chunks vectors ≡ some ps)
        × (m.held id (replace_document v tenant_id doc_id title chunks vectors s).1
            ≡ written id ps (if in_document tenant_id doc_id id then none else m.held id s))
  unfolding replace_document
  replace_document-written tenant_id doc_id title chunks vectors id s h =
      proceed-ends
        (λ s'.
          (ps : List (Point Vector)) × (points_of v tenant_id doc_id title chunks vectors ≡ some ps)
          × (m.held id s'
              ≡ written id ps (if in_document tenant_id doc_id id then none else m.held id s)))
        _ (delete_points tenant_id doc_id s).0 (delete_points tenant_id doc_id s).1
        (λ u e f.
          let (ps, p, w) =
            upsert_all-written (points_of v tenant_id doc_id title chunks vectors) id _ f in
          (ps, p, w ∙ ap (written id ps) (m.removed id tenant_id doc_id s e)))
        h

  put_record-held :
      (tenant_id : String) (r : DocumentRecord) (id : PointId) (s : State)
      → m.held id (put_record v tenant_id r s).1 ≡ m.held id s
  unfolding put_record
  put_record-held tenant_id r id s =
      ap (m.held id) (proceed-keeps tt (v.pipeline (commands tenant_id r) s).0 _)
      ∙ m.registry_keeps id (commands tenant_id r) s
    where
      commands : String → DocumentRecord → List DocumentCommand
      commands t x =
          DocumentCommand.set_record t x ∷ DocumentCommand.zadd_index t x.doc_id x.created_at ∷ []

  register-held :
      (chunker tenant_id : String) (upload : DocumentUpload) (sections : List Section)
      (chunks : List Chunk) (id : PointId) (s : State) (r : DocumentRecord)
      → (register v chunker tenant_id upload sections chunks s).0 ≡ Fallible.done r
      → m.held id (register v chunker tenant_id upload sections chunks s).1 ≡ m.held id s
  unfolding register
  register-held chunker tenant_id upload sections chunks id s r h =
      proceed-ends (λ s'. m.held id s' ≡ m.held id s) _ (v.now s).0 (v.now s).1
        (λ t e f.
          let x = record_of v chunker upload sections chunks t in
          ap (m.held id) (
            proceed-keeps x (put_record v tenant_id x (v.now s).1).0
              (put_record v tenant_id x (v.now s).1).1)
          ∙ put_record-held tenant_id x id (v.now s).1
          ∙ m.clock_keeps id s)
        h

  ingest_sections-ReplacedBy :
      (chunker tenant_id : String) (upload : DocumentUpload) (sections : List Section)
      (id : PointId) (s : State) (r : DocumentRecord)
      → (ingest_sections v chunker tenant_id upload sections s).0 ≡ Fallible.done r
      → ReplacedBy tenant_id upload sections id
          (m.held id s)
          s
          (ingest_sections v chunker tenant_id upload sections s).1
  unfolding ingest_sections
  ingest_sections-ReplacedBy chunker tenant_id upload sections id s r h =
      let title = title_of v upload sections in
      let chunks = v.chunk sections title in
      let texts = map (λ (c : Chunk). c.text) chunks in
      let s1 = (v.embed_documents texts s).1 in
      proceed-ends (ReplacedBy tenant_id upload sections id (m.held id s) s) _
        (v.embed_documents texts s).0 s1
        (λ vectors e1 f1.
          proceed-ends (ReplacedBy tenant_id upload sections id (m.held id s) s) _
            (replace_document v tenant_id (v.document_id upload.bytes) title chunks vectors s1).0
            (replace_document v tenant_id (v.document_id upload.bytes) title chunks vectors s1).1
            (λ u e2 f2.
              let (ps, p, w) =
                replace_document-written tenant_id (v.document_id upload.bytes) title chunks vectors
                  id s1 e2 in
              (
                vectors,
                ps,
                e1,
                p,
                register-held chunker tenant_id upload sections chunks id _ r f2
                    ∙ w
                    ∙ ap
                        (λ o. written id ps (
                          if in_document tenant_id (v.document_id upload.bytes) id
                          then none
                          else o))
                        (m.embedding_keeps id texts s),
              ))
            f1)
        h

  -- Once an ingestion has answered, what is held under any id is what the chunks of its parsed sections,
  -- with the vectors that the embedder gave for their texts, write there, over nothing for the ids of the document and over what was held before for all others: nothing
  -- is left of an earlier version, and no other document or tenant is touched.
  pub ingest-Replaced :
      (chunker : String) (max_bytes : ℕ) (tenant_id : String) (upload : DocumentUpload)
      (id : PointId) (s : State) (r : DocumentRecord)
      → (ingest v chunker max_bytes tenant_id upload s).0 ≡ Fallible.done r
      → Replaced tenant_id upload id s (ingest v chunker max_bytes tenant_id upload s).1
  unfolding ingest
  ingest-Replaced chunker max_bytes tenant_id upload id s r h =
      by_size (ltb max_bytes (length upload.bytes)) h
    where
      by_size :
          (b : Bool)
          → let run =
              if b
              then (Fallible.raised "DocumentTooLargeError", s)
              else (v.parse_document upload >>= ingest_sections v chunker tenant_id upload) s in
            (r' : run.0 ≡ Fallible.done r) → Replaced tenant_id upload id s run.1
      by_size true h = cc
      by_size false h =
          proceed-ends (Replaced tenant_id upload id s) _ (v.parse_document upload s).0
            (v.parse_document upload s).1
            (λ sections e f. (
              sections,
              e,
              subst
                  (λ o.
                    ReplacedBy tenant_id upload sections id o (v.parse_document upload s).1
                      (ingest_sections v chunker tenant_id upload sections
                        (v.parse_document upload s).1).1)
                  (m.parsing_keeps id upload s)
                  (ingest_sections-ReplacedBy chunker tenant_id upload sections id _ r f),
            ))
            h
