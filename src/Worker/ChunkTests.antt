-- ===== src/Worker/ChunkTests.antt =====
-- Chunking at concrete resumes.
use kkori_ai.Prelude.{◌≡◌, refl, List, [], ◌∷◌, Text, any, length}
use kkori_ai.Worker.Chunking.{
  project, experience, skill, StructuredData, ResumeEnrichment, Options, is_empty_project,
  is_empty_experience, is_empty_skill, approx_tokens, pack, build_chunks, chunk_structured_data,
}
use kkori_ai.Worker.Chunking.Pack.{unpack, Repeats, unpack-pack}
use kkori_ai.Worker.Chunking.Plain.{chunks_of, chunk_structured_data-build_chunks}
use kkori_ai.Worker.Chunking.Covers.{is_of, kept_at, build_chunks-covers}

-- the text "Hi."
abbrev hi : Text
hi = 72 ∷ 105 ∷ 46 ∷ []

abbrev cut : Text → List Text
cut t = t ∷ []

abbrev options : Options
options = record { target_tokens = 512; overlap_sentences = 1; chunk_version = 3 }

abbrev resume : StructuredData
resume = record {
  skills = record { category = hi; items = hi ∷ [] } ∷ [];
  projects =
      record { name = []; role = []; description = []; tech_stacks = [] }
      ∷ record { name = hi; role = []; description = hi; tech_stacks = hi ∷ [] }
      ∷ [];
  experiences = record { title = hi; description = hi } ∷ [];
}

abbrev enrichment : ResumeEnrichment
enrichment = record { projects = []; experiences = []; skills = [] }

-- Three sentences of one token with a budget of two, and one repeated.
pieces : length (pack 2 1 [] (hi ∷ hi ∷ hi ∷ [])) ≡ 2
unfolding pack approx_tokens
pieces = refl

unpack-pack_example :
    (unpack 1 0 (pack 2 1 [] (hi ∷ hi ∷ hi ∷ [])) ≡ hi ∷ hi ∷ hi ∷ [])
    × Repeats 1 (pack 2 1 [] (hi ∷ hi ∷ hi ∷ []))
unpack-pack_example = unpack-pack 2 1 (hi ∷ hi ∷ hi ∷ [])

chunk_structured_data-build_chunks_example :
    chunk_structured_data cut options resume
    ≡ chunks_of (build_chunks cut options resume enrichment)
chunk_structured_data-build_chunks_example = chunk_structured_data-build_chunks cut options resume

build_chunks-covers_example :
    (any (is_of project 1) (build_chunks cut options resume enrichment)
      ≡ kept_at is_empty_project 1 resume.projects)
    × (any (is_of experience 1) (build_chunks cut options resume enrichment)
        ≡ kept_at is_empty_experience 1 resume.experiences)
    × (any (is_of skill 1) (build_chunks cut options resume enrichment)
        ≡ kept_at is_empty_skill 1 resume.skills)
build_chunks-covers_example = build_chunks-covers cut options resume enrichment 1
