-- ===== src/Worker/Chunking/Plain.antt =====
-- The two ways to chunk a resume.
use kkori_ai.Prelude.{
  ℕ, suc, ◌≡◌, refl, sym, ◌∙◌, ap, Bool, true, false, Option, none, List, [], ◌∷◌, ◌++◌, Text, leb,
  map, map-append, strip, if◌then◌else◌,
}
use kkori_ai.Worker.Chunking.{
  Chunk, ChunkType, project, experience, StructuredData, Options, Extra, approx_tokens, lines,
  split_sentences, split_oversized, entity_pieces, enrichment_extra, piece_chunks, plain_chunk,
  plain_project, plain_experience, plain_skill, add_entity, each, each_plain, is_empty_project,
  is_empty_experience, is_empty_skill, project_chunks, experience_chunks, skill_chunks,
  project_header, tech_tail, experience_text, build_chunks, chunk_structured_data,
}

-- The chunks without what is merged into their metadata.
abbrev pub chunks_of : List (Chunk × Extra) → List Chunk
chunks_of cs = map (λ (c : Chunk × Extra). c.0) cs

chunks_of-pieces :
    (o : Options) (type : ChunkType) (i : ℕ) (label : Text) (extra : Extra) (pieces : List Text)
    → chunks_of (piece_chunks o type i label extra pieces) ≡ map (plain_chunk o type i label) pieces
chunks_of-pieces o type i label extra [] = refl
chunks_of-pieces o type i label extra (p ∷ ps) =
    ap (λ cs. plain_chunk o type i label p ∷ cs) (chunks_of-pieces o type i label extra ps)

pieces-entity :
    (cut : Text → List Text) (o : Options) (type : ChunkType) (i : ℕ)
    (label header body tail : Text)
    → map
        (plain_chunk o type i label)
        (entity_pieces cut header body tail o.target_tokens o.overlap_sentences)
      ≡ add_entity cut o type i label header body tail
unfolding entity_pieces
pieces-entity cut o type i label header body tail =
    by_size (leb (approx_tokens (lines (header ∷ body ∷ tail ∷ []))) o.target_tokens)
  where
    by_size :
        (b : Bool)
        → map (plain_chunk o type i label) (
            if b
            then lines (header ∷ body ∷ tail ∷ []) ∷ []
            else split_oversized header
                (split_sentences cut body)
                tail
                o.target_tokens
                o.overlap_sentences)
          ≡ (if b
              then plain_chunk o type i label (lines (header ∷ body ∷ tail ∷ [])) ∷ []
              else map (plain_chunk o type i label) (
                  split_oversized header
                    (split_sentences cut body)
                    tail
                    o.target_tokens
                    o.overlap_sentences))
    by_size true = refl
    by_size false = refl

module _ {A B : Type 0} (empty : A → Bool) (chunks : ℕ → A → Option B → List (Chunk × Extra))
    (plain : ℕ → A → List Chunk)
    (same : (i : ℕ) (x : A) → chunks_of (chunks i x none) ≡ plain i x) where
  one-plain :
      (b : Bool) (i : ℕ) (x : A)
      → chunks_of (if b then [] else chunks i x none) ≡ (if b then [] else plain i x)
  one-plain true i x = refl
  one-plain false i x = same i x

  each-plain :
      (i : ℕ) (xs : List A) → chunks_of (each empty chunks [] i xs) ≡ each_plain empty plain i xs
  each-plain i [] = refl
  each-plain i (x ∷ xs) =
      map-append _ (if empty x then [] else chunks i x none) (each empty chunks [] (suc i) xs)
      ∙ ap (λ cs. cs ++ chunks_of (each empty chunks [] (suc i) xs)) (one-plain (empty x) i x)
      ∙ ap (λ cs. (if empty x then [] else plain i x) ++ cs) (each-plain (suc i) xs)

-- Chunking without enrichment gives the chunks of the enriched chunking of the same resume when the
-- enrichment is empty, in the same order, at the same settings.
pub chunk_structured_data-build_chunks :
    (cut : Text → List Text) (o : Options) (resume : StructuredData)
    → chunk_structured_data cut o resume
      ≡ chunks_of
          (build_chunks cut o resume (record { projects = []; experiences = []; skills = [] }))
unfolding build_chunks chunk_structured_data
chunk_structured_data-build_chunks cut o resume = sym (
    map-append _ (ps ++ es) ss
    ∙ ap (λ cs. cs ++ chunks_of ss) (map-append _ ps es)
    ∙ ap (λ cs. cs ++ chunks_of es ++ chunks_of ss) projects_same
    ∙ ap (λ cs. plain_ps ++ cs ++ chunks_of ss) experiences_same
    ∙ ap (λ cs. plain_ps ++ plain_es ++ cs) skills_same)
  where
    ps : List (Chunk × Extra)
    ps = each is_empty_project (project_chunks cut o) [] 0 resume.projects

    es : List (Chunk × Extra)
    es = each is_empty_experience (experience_chunks cut o) [] 0 resume.experiences

    ss : List (Chunk × Extra)
    ss = each is_empty_skill (skill_chunks o) [] 0 resume.skills

    plain_ps : List Chunk
    plain_ps = each_plain is_empty_project (plain_project cut o) 0 resume.projects

    plain_es : List Chunk
    plain_es = each_plain is_empty_experience (plain_experience cut o) 0 resume.experiences

    projects_same : chunks_of ps ≡ plain_ps
    projects_same =
        each-plain is_empty_project (project_chunks cut o) (plain_project cut o)
          (λ i p.
            chunks_of-pieces o project i p.name (enrichment_extra none) _
            ∙ pieces-entity cut o project i p.name (project_header p.name p.role) p.description
                (tech_tail p.tech_stacks))
          0 resume.projects

    experiences_same : chunks_of es ≡ plain_es
    experiences_same =
        each-plain is_empty_experience (experience_chunks cut o) (plain_experience cut o)
          (λ i e.
            chunks_of-pieces o experience i e.title (enrichment_extra none) _
            ∙ pieces-entity cut o experience i e.title (strip (experience_text ++ e.title))
                e.description [])
          0 resume.experiences

    skills_same : chunks_of ss ≡ each_plain is_empty_skill (plain_skill o) 0 resume.skills
    skills_same =
        each-plain is_empty_skill (skill_chunks o) (plain_skill o) (λ i s. refl) 0 resume.skills
