-- ===== src/Tests/Ingests.antt =====
-- An ingestion of two chunks over an earlier version of the document with three.
use llm_gateway_rag.Common.{ℕ, refl, Option, none, List, [], ◌∷◌, if◌then◌else◌}
use llm_gateway_rag.Common.Fallible.{Fallible, pure}
use llm_gateway_rag.Chunking.{Chunk}
use llm_gateway_rag.Documents.{
  Point, DocumentRecord, DocumentUpload, DocumentServices, points_of, upsert_batches,
  replace_document, put_record, last_page, register, ingest_sections, ingest,
}
use llm_gateway_rag.Documents.Replaced.{
  PointId, Points, written, in_document, Replaced, ingest-Replaced,
}

abbrev Held : Type 0
Held = PointId → Option (Point ℕ)

abbrev two_chunks : List Chunk
two_chunks =
    record { index = 0; text = 97 ∷ []; page = none; heading = none }
    ∷ record { index = 1; text = 98 ∷ []; page = none; heading = none }
    ∷ []

abbrev qdrant : DocumentServices
qdrant = record {
  State = Held;
  Vector = ℕ;
  parse_document = λ u. pure (record { text = 97 ∷ 98 ∷ []; page = none } ∷ []);
  strip = λ t. t;
  infer_title = λ ss f. 116 ∷ [];
  document_id = λ bytes. "d";
  chunk = λ ss t. two_chunks;
  embed_documents = λ ts. pure (5 ∷ 6 ∷ []);
  delete_points = λ t d s. (Fallible.done tt, λ id. if in_document t d id then none else s id);
  upsert = λ ps s. (Fallible.done tt, λ id. written id ps (s id));
  now = pure 9;
  pipeline = λ cs. pure 1;
  get_record = λ t d. pure none;
  zrevrange = λ t. pure [];
  mget = λ t ds. pure [];
}

abbrev points : Points qdrant
points = record {
  held = λ id s. s id;
  upserted = λ id ps s h. refl;
  removed = λ id t d s h. refl;
  parsing_keeps = λ id u s. refl;
  embedding_keeps = λ id ts s. refl;
  clock_keeps = λ id s. refl;
  registry_keeps = λ id cs s. refl;
}

abbrev old_point : Point ℕ
old_point = record {
  tenant_id = "acme";
  doc_id = "d";
  chunk_index = 2;
  text = 99 ∷ [];
  title = 116 ∷ [];
  page = none;
  heading = none;
  vector = 1;
}

abbrev earlier : Held
earlier id = written id (old_point ∷ []) none

abbrev upload : DocumentUpload
upload = record { filename = "f.md"; content_type = none; bytes = 1 ∷ 2 ∷ []; title = none }

abbrev entry : DocumentRecord
entry = record {
  doc_id = "d";
  title = 116 ∷ [];
  filename = "f.md";
  content_type = none;
  size_bytes = 2;
  pages = none;
  chunks = 2;
  chunker = "fixed";
  created_at = 9;
}

ingest-Replaced_example :
    Replaced qdrant points "acme" upload
      ("acme", "d", 2)
      earlier
      (ingest qdrant "fixed" 10 "acme" upload earlier).1
unfolding ingest ingest_sections replace_document points_of upsert_batches register put_record
    last_page
ingest-Replaced_example =
    ingest-Replaced qdrant points "fixed" 10 "acme" upload ("acme", "d", 2) earlier entry refl
