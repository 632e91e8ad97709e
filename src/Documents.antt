-- ===== src/Documents.antt =====
-- Documents: the chunk store's writes (app/rag/vector_store.py), the registry (app/rag/documents.py) and the
-- ingestion service (app/rag/ingestion.py). Qdrant, Redis, the parsers, sha256 and the regular expressions are a
-- parameter.
pub mod Replaced
use llm_gateway_rag.Common.{
  ℕ, zero, suc, max, String, Bool, true, false, Option, none, some, List, [], ◌∷◌, ◌++◌, map, take,
  drop, length, if◌then◌else◌, ltb, or_else,
}
use llm_gateway_rag.Common.Text.{Text}
use llm_gateway_rag.Common.Fallible.{Fallible, proceed, pure, ◌>>=◌, ◌>>◌}
use llm_gateway_rag.Chunking.{Section, Chunk}

-- The payload and the vector of a point; `point_id` is a hash of the first three.
pub record Point (Vector : Type 0) : Type 0 where
  pub tenant_id : String
  pub doc_id : String
  pub chunk_index : ℕ
  pub text : Text
  pub title : Text
  pub page : Option ℕ
  pub heading : Option Text
  pub vector : Vector

pub record DocumentRecord : Type 0 where
  pub doc_id : String
  pub title : Text
  pub filename : String
  pub content_type : Option String
  pub size_bytes : ℕ
  pub pages : Option ℕ
  pub chunks : ℕ
  pub chunker : String
  pub created_at : ℕ

-- `bytes` is the field `data`.
pub record DocumentUpload : Type 0 where
  pub filename : String
  pub content_type : Option String
  pub bytes : List ℕ
  pub title : Option Text

-- The commands of the pipelines of `put` and `delete`.
pub data DocumentCommand : Type 0 where
  set_record : String → DocumentRecord → DocumentCommand
  zadd_index : String → String → ℕ → DocumentCommand
  delete_record zrem_index : String → String → DocumentCommand

pub record DocumentServices : Type 1 where
  pub State : Type 0
  pub Vector : Type 0
  pub parse_document : DocumentUpload → State → Fallible (List Section) × State
  -- `str.strip`, `infer_title` and `document_id`
  pub strip : Text → Text
  pub infer_title : List Section → String → Text
  pub document_id : List ℕ → String
  pub chunk : List Section → Text → List Chunk
  pub embed_documents : List Text → State → Fallible (List Vector) × State
  -- the points of a document, by the filter on tenant and document
  pub delete_points : String → String → State → Fallible (Unit {0}) × State
  pub upsert : List (Point Vector) → State → Fallible (Unit {0}) × State
  pub now : State → Fallible ℕ × State
  -- a pipeline, with the reply of its first command
  pub pipeline : List DocumentCommand → State → Fallible ℕ × State
  pub get_record : String → String → State → Fallible (Option DocumentRecord) × State
  pub zrevrange : String → State → Fallible (List String) × State
  pub mget : String → List String → State → Fallible (List (Option DocumentRecord)) × State

abbrev pub batch_size : ℕ
batch_size = 256

-- `max(pages) if pages else None`
unfoldable pub last_page : List Section → Option ℕ
last_page [] = none
last_page (s ∷ ss) = elim s.page [
  | none ↦ last_page ss
  | some p ↦ some (elim (last_page ss) [ none ↦ p | some q ↦ max p q ])
]

-- `[r for r in raws if r]`
abbrev pub present : List (Option DocumentRecord) → List DocumentRecord
present [] = []
present (none ∷ rs) = present rs
present (some r ∷ rs) = r ∷ present rs

module _ (v : DocumentServices) where
  open v use {
    State, Vector, parse_document, strip, infer_title, document_id, chunk, embed_documents,
    delete_points, upsert, now, pipeline, get_record, zrevrange, mget,
  }

  abbrev pub point_of : String → String → Text → Chunk → Vector → Point Vector
  point_of tenant_id doc_id title c vec = record {
    tenant_id = tenant_id;
    doc_id = doc_id;
    chunk_index = c.index;
    text = c.text;
    title = title;
    page = c.page;
    heading = c.heading;
    vector = vec;
  }

  -- the points, of `zip(chunks, vectors, strict=True)`
  unfoldable pub points_of :
      String → String → Text → List Chunk → List Vector → Option (List (Point Vector))
  points_of tenant_id doc_id title [] [] = some []
  points_of tenant_id doc_id title (c ∷ cs) (x ∷ xs) =
      elim (points_of tenant_id doc_id title cs xs) [
        | none ↦ none
        | some ps ↦ some (point_of tenant_id doc_id title c x ∷ ps)
      ]
  points_of tenant_id doc_id title _ _ = none

  -- the loop over the batches, with the number of points as fuel
  unfoldable pub upsert_batches : ℕ → List (Point Vector) → State → Fallible (Unit {0}) × State
  upsert_batches zero ps = pure tt
  upsert_batches (suc fuel) [] = pure tt
  upsert_batches (suc fuel) (p ∷ ps) = do
    upsert (take batch_size (p ∷ ps))
    upsert_batches fuel (drop batch_size (p ∷ ps))

  abbrev pub upsert_all : Option (List (Point Vector)) → State → Fallible (Unit {0}) × State
  upsert_all none s = (Fallible.raised "ValueError", s)
  upsert_all (some ps) s = upsert_batches (length ps) ps s

  -- `replace_document`
  unfoldable pub replace_document :
      String → String → Text → List Chunk → List Vector → State → Fallible (Unit {0}) × State
  replace_document tenant_id doc_id title chunks vectors = do
    delete_points tenant_id doc_id
    upsert_all (points_of tenant_id doc_id title chunks vectors)

  -- `put`, `list` and `delete` of the registry
  unfoldable pub put_record : String → DocumentRecord → State → Fallible (Unit {0}) × State
  put_record tenant_id r = do
    pipeline (
        DocumentCommand.set_record tenant_id r
        ∷ DocumentCommand.zadd_index tenant_id r.doc_id r.created_at
        ∷ [])
    pure tt

  abbrev pub records_of : String → List String → State → Fallible (List DocumentRecord) × State
  records_of tenant_id [] = pure []
  records_of tenant_id (d ∷ ds) = do raws ← mget tenant_id (d ∷ ds); pure (present raws)

  unfoldable pub list_records : String → State → Fallible (List DocumentRecord) × State
  list_records tenant_id = do ids ← zrevrange tenant_id; records_of tenant_id ids

  unfoldable pub forget_record : String → String → State → Fallible Bool × State
  forget_record tenant_id doc_id = do
    deleted ← pipeline (
        DocumentCommand.delete_record tenant_id doc_id
        ∷ DocumentCommand.zrem_index tenant_id doc_id
        ∷ [])
    pure (ltb 0 deleted)

  -- `(upload.title or "").strip() or infer_title(…)`
  abbrev pub title_or : Text → Text → Text
  title_or [] inferred = inferred
  title_or (c ∷ t) inferred = c ∷ t

  abbrev pub title_of : DocumentUpload → List Section → Text
  title_of upload sections =
      title_or (strip (or_else upload.title [])) (infer_title sections upload.filename)

  abbrev pub record_of : String → DocumentUpload → List Section → List Chunk → ℕ → DocumentRecord
  record_of chunker upload sections chunks t = record {
    doc_id = document_id upload.bytes;
    title = title_of upload sections;
    filename = upload.filename;
    content_type = upload.content_type;
    size_bytes = length upload.bytes;
    pages = last_page sections;
    chunks = length chunks;
    chunker = chunker;
    created_at = t;
  }

  -- the registry entry, once the points are stored
  unfoldable pub register :
      String
      → String
      → DocumentUpload
      → List Section
      → List Chunk
      → State
      → Fallible DocumentRecord × State
  register chunker tenant_id upload sections chunks = do
    t ← now
    put_record tenant_id (record_of chunker upload sections chunks t)
    pure (record_of chunker upload sections chunks t)

  unfoldable pub ingest_sections :
      String → String → DocumentUpload → List Section → State → Fallible DocumentRecord × State
  ingest_sections chunker tenant_id upload sections = do
    let title = title_of upload sections
    let chunks = chunk sections title
    vectors ← embed_documents (map (λ (c : Chunk). c.text) chunks)
    replace_document tenant_id (document_id upload.bytes) title chunks vectors
    register chunker tenant_id upload sections chunks

  -- `ingest`
  unfoldable pub ingest :
      String → ℕ → String → DocumentUpload → State → Fallible DocumentRecord × State
  ingest chunker max_bytes tenant_id upload s =
      if ltb max_bytes (length upload.bytes)
      then (Fallible.raised "DocumentTooLargeError", s)
      else (do sections ← parse_document upload; ingest_sections chunker tenant_id upload sections)
          s

  abbrev pub delete_known : String → String → Option DocumentRecord → State → Fallible Bool × State
  delete_known tenant_id doc_id none = pure false
  delete_known tenant_id doc_id (some r) = do
    delete_points tenant_id doc_id
    forget_record tenant_id doc_id

  -- `delete`
  unfoldable pub delete_document : String → String → State → Fallible Bool × State
  delete_document tenant_id doc_id = do
    r ← get_record tenant_id doc_id
    delete_known tenant_id doc_id r
