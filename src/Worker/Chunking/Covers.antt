-- ===== src/Worker/Chunking/Covers.antt =====
-- Which entities of a resume have chunks.
use kkori_ai.Prelude.{
  ℕ, zero, suc, ◌+◌, ◌≡◌, refl, sym, ◌∙◌, ap, subst, Bool, true, false, not, ◌&&◌, ◌||◌, Option,
  none, some, List, [], ◌∷◌, ◌++◌, Text, ◌==◌, is_empty, strip, any, All, map, arith, if◌then◌else◌,
}
use kkori_ai.Worker.Chunking.{
  Chunk, ChunkType, project, experience, skill, StructuredData, ResumeEnrichment, ProjectAnalysis,
  Project, Achievement, Options, Extra, split_sentences, pack, render, budget_of, split_oversized,
  entity_pieces, at_index, chunk, piece_chunks, achievement_chunks, project_chunks, analysed_chunks,
  experience_chunks, skill_chunks, each, is_empty_project, is_empty_experience, is_empty_skill,
  build_chunks, project_header, tech_tail, Experience, Skill, ChunkEnrichment,
}

abbrev pub type_eq : ChunkType → ChunkType → Bool
type_eq project project = true
type_eq experience experience = true
type_eq skill skill = true
type_eq _ _ = false

-- The chunk is of this type and of the entity at this place.
abbrev pub is_of : ChunkType → ℕ → Chunk × Extra → Bool
is_of t k c = type_eq t c.0.type && c.0.source_index == k

-- There is an entity at this place, and it is not empty.
abbrev pub kept_at : {A : Type 0} → (A → Bool) → ℕ → List A → Bool
kept_at empty k [] = false
kept_at empty zero (x ∷ xs) = not (empty x)
kept_at empty (suc k) (x ∷ xs) = kept_at empty k xs

pack_some :
    (budget overlap : ℕ) (c : Text) (current ss : List Text)
    → is_empty (pack budget overlap (c ∷ current) ss) ≡ false
unfolding pack
pack_some budget overlap c current [] = refl
pack_some budget overlap c current (s ∷ ss) =
    ground (arith, pack_some budget overlap c (current ++ s ∷ []) ss)

render_some :
    (header tail : Text) (ps : List (List Text))
    → is_empty ps ≡ false
    → is_empty (render header tail ps) ≡ false
unfolding render
render_some header tail [] h = absurd (ground arith)
render_some header tail (p ∷ []) h = refl
render_some header tail (p ∷ q ∷ ps) h = refl

split_some :
    (header : Text) (ss : List Text) (tail : Text) (target overlap : ℕ)
    → is_empty (split_oversized header ss tail target overlap) ≡ false
unfolding split_oversized pack
split_some header [] tail target overlap = refl
split_some header (s ∷ ss) tail target overlap =
    render_some header tail _ (pack_some (budget_of target header) overlap s [] ss)

pieces_some :
    (cut : Text → List Text) (header body tail : Text) (target overlap : ℕ)
    → is_empty (entity_pieces cut header body tail target overlap) ≡ false
unfolding entity_pieces
pieces_some cut header body tail target overlap =
    ground (arith, split_some header (split_sentences cut body) tail target overlap)

-- All chunks are of this type and of the entity at this place, and there is one.
pub record IsFrom (t : ChunkType) (i : ℕ) (cs : List (Chunk × Extra)) : Type 0 where
  pub all_of : All (λ (c : Chunk × Extra). (c.0.type ≡ t) × (c.0.source_index ≡ i)) cs
  pub some_of : is_empty cs ≡ false

pieces-All :
    (o : Options) (t : ChunkType) (i : ℕ) (label : Text) (extra : Extra) (ps : List Text)
    → All
        (λ (c : Chunk × Extra). (c.0.type ≡ t) × (c.0.source_index ≡ i))
        (piece_chunks o t i label extra ps)
pieces-All o t i label extra [] = tt
pieces-All o t i label extra (p ∷ ps) = ((refl, refl), pieces-All o t i label extra ps)

map_some :
    {A B : Type 0} (f : A → B) (xs : List A) → is_empty xs ≡ false → is_empty (map f xs) ≡ false
map_some f [] h = h
map_some f (x ∷ xs) h = refl

pieces-IsFrom :
    (o : Options) (t : ChunkType) (i : ℕ) (label : Text) (extra : Extra) (ps : List Text)
    → is_empty ps ≡ false
    → IsFrom t i (piece_chunks o t i label extra ps)
pieces-IsFrom o t i label extra ps h = record {
  all_of = pieces-All o t i label extra ps;
  some_of = map_some (chunk o t i label extra) ps h;
}

achievements-All :
    (o : Options) (i : ℕ) (label : Text) (front : List Text) (tail : Text) (j : ℕ)
    (more : List Achievement)
    → All
        (λ (c : Chunk × Extra). (c.0.type ≡ project) × (c.0.source_index ≡ i))
        (achievement_chunks o i label front tail j more)
achievements-All o i label front tail j [] = tt
achievements-All o i label front tail j (a ∷ more) =
    ((refl, refl), achievements-All o i label front tail (suc j) more)

analysed_chunks-IsFrom :
    (cut : Text → List Text) (o : Options) (i : ℕ) (p : Project) (intro : Text)
    (achievements : List Achievement)
    → IsFrom project i (analysed_chunks cut o i p intro achievements)
analysed_chunks-IsFrom cut o i p intro [] =
    pieces-IsFrom o project i p.name _ _
      (pieces_some cut _ p.description _ o.target_tokens o.overlap_sentences)
analysed_chunks-IsFrom cut o i p intro (a ∷ more) = record {
  all_of =
      achievements-All o i p.name
        (project_header p.name p.role ∷ (if is_empty intro then [] else intro ∷ []))
        (tech_tail p.tech_stacks) 0 (a ∷ more);
  some_of = refl;
}

project_chunks-IsFrom :
    (cut : Text → List Text) (o : Options) (i : ℕ) (p : Project) (analysis : Option ProjectAnalysis)
    → IsFrom project i (project_chunks cut o i p analysis)
project_chunks-IsFrom cut o i p none =
    pieces-IsFrom o project i p.name _ _
      (pieces_some cut _ p.description _ o.target_tokens o.overlap_sentences)
project_chunks-IsFrom cut o i p (some analysis) =
    analysed_chunks-IsFrom cut o i p (strip analysis.intro) analysis.achievements

any-append :
    (f : Chunk × Extra → Bool) (xs ys : List (Chunk × Extra))
    → any f (xs ++ ys) ≡ (any f xs || any f ys)
any-append f [] ys = refl
any-append f (x ∷ xs) ys = ground (arith, any-append f xs ys)

any_other :
    (t u : ChunkType) (i j : ℕ) (cs : List (Chunk × Extra))
    → (type_eq u t && i == j) ≡ false
    → All (λ (c : Chunk × Extra). (c.0.type ≡ t) × (c.0.source_index ≡ i)) cs
    → any (is_of u j) cs ≡ false
any_other t u i j [] n h = refl
any_other t u i j (c ∷ cs) n h =
    subst (λ b. (if b then true else any (is_of u j) cs) ≡ false)
      (sym (
        ap (λ x. type_eq u x && c.0.source_index == j) h.0.0
        ∙ ap (λ x. type_eq u t && x == j) h.0.1
        ∙ n))
      (any_other t u i j cs n h.1)

own_type : (t : ChunkType) (i : ℕ) → (type_eq t t && i == i) ≡ true
own_type project i = ground arith
own_type experience i = ground arith
own_type skill i = ground arith

any_own :
    (t : ChunkType) (i : ℕ) (cs : List (Chunk × Extra)) → IsFrom t i cs → any (is_of t i) cs ≡ true
any_own t i [] h = absurd (ground (arith, h.some_of))
any_own t i (c ∷ cs) h =
    subst (λ b. (if b then true else any (is_of t i) cs) ≡ true)
      (sym (
        ap (λ x. type_eq t x && c.0.source_index == i) h.all_of.0.0
        ∙ ap (λ x. type_eq t t && x == i) h.all_of.0.1
        ∙ own_type t i))
      refl

module _ {A B : Type 0} (t : ChunkType) (empty : A → Bool)
    (chunks : ℕ → A → Option B → List (Chunk × Extra)) (found : List B)
    (from : (i : ℕ) (x : A) (e : Option B) → IsFrom t i (chunks i x e)) where
  one : (b : Bool) (i : ℕ) (x : A) → List (Chunk × Extra)
  one b i x = if b then [] else chunks i x (at_index i found)

  one_other :
      (b : Bool) (u : ChunkType) (i j : ℕ) (x : A)
      → (type_eq u t && i == j) ≡ false
      → any (is_of u j) (one b i x) ≡ false
  unfolding one
  one_other true u i j x n = refl
  one_other false u i j x n = any_other t u i j _ n (from i x (at_index i found)).all_of

  one_own : (b : Bool) (i : ℕ) (x : A) → any (is_of t i) (one b i x) ≡ not b
  unfolding one
  one_own true i x = refl
  one_own false i x = any_own t i _ (from i x (at_index i found))

  each_other :
      (u : ChunkType) (i j : ℕ) (xs : List A)
      → ((k : ℕ) → (type_eq u t && (i + k) == j) ≡ false)
      → any (is_of u j) (each empty chunks found i xs) ≡ false
  unfolding one
  each_other u i j [] n = refl
  each_other u i j (x ∷ xs) n =
      any-append (is_of u j) (one (empty x) i x) (each empty chunks found (suc i) xs)
      ∙ ap (λ b. b || any (is_of u j) (each empty chunks found (suc i) xs))
          (one_other (empty x) u i j x
            (subst (λ m. (type_eq u t && m == j) ≡ false) (omega arith) (n 0)))
      ∙ each_other u (suc i) j xs
          (λ k. subst (λ m. (type_eq u t && m == j) ≡ false) (omega arith) (n (suc k)))

  not_later : (b : Bool) (i k : ℕ) → (b && (suc i + k) == i) ≡ false
  not_later b i k = ground arith

  not_now : (b : Bool) (i k : ℕ) → (b && i == (i + suc k)) ≡ false
  not_now b i k = ground arith

  each_own :
      (i k : ℕ) (xs : List A)
      → any (is_of t (i + k)) (each empty chunks found i xs) ≡ kept_at empty k xs
  unfolding one
  each_own i k [] = refl
  each_own i zero (x ∷ xs) =
      ap (λ m. any (is_of t m) (each empty chunks found i (x ∷ xs))) (plus_zero i)
      ∙ any-append (is_of t i) (one (empty x) i x) (each empty chunks found (suc i) xs)
      ∙ ap (λ b. any (is_of t i) (one (empty x) i x) || b)
          (each_other t (suc i) i xs (λ k. not_later (type_eq t t) i k))
      ∙ ap (λ b. b || false) (one_own (empty x) i x)
      ∙ or_false (not (empty x))
    where
      plus_zero : (n : ℕ) → n + 0 ≡ n
      plus_zero n = omega arith

      or_false : (b : Bool) → (b || false) ≡ b
      or_false true = refl
      or_false false = refl
  each_own i (suc k) (x ∷ xs) =
      any-append (is_of t (i + suc k)) (one (empty x) i x) (each empty chunks found (suc i) xs)
      ∙ ap (λ b. b || any (is_of t (i + suc k)) (each empty chunks found (suc i) xs))
          (one_other (empty x) t i (i + suc k) x (not_now (type_eq t t) i k))
      ∙ ap (λ m. any (is_of t m) (each empty chunks found (suc i) xs)) (shift i k)
      ∙ each_own (suc i) k xs
    where
      shift : (n m : ℕ) → n + suc m ≡ suc n + m
      shift n m = omega arith

experience_chunks-IsFrom :
    (cut : Text → List Text) (o : Options) (i : ℕ) (e : Experience)
    (enrichment : Option ChunkEnrichment)
    → IsFrom experience i (experience_chunks cut o i e enrichment)
experience_chunks-IsFrom cut o i e enrichment =
    pieces-IsFrom o experience i e.title _ _
      (pieces_some cut _ e.description _ o.target_tokens o.overlap_sentences)

skill_chunks-IsFrom :
    (o : Options) (i : ℕ) (s : Skill) (enrichment : Option ChunkEnrichment)
    → IsFrom skill i (skill_chunks o i s enrichment)
skill_chunks-IsFrom o i s enrichment = record { all_of = ((refl, refl), tt); some_of = refl }

-- The three parts: only one of them has chunks of a type.
three :
    (f : Chunk × Extra → Bool) (xs ys zs : List (Chunk × Extra))
    → any f (xs ++ ys ++ zs) ≡ ((any f xs || any f ys) || any f zs)
three f xs ys zs = any-append f (xs ++ ys) zs ∙ ap (λ b. b || any f zs) (any-append f xs ys)

-- An entity of a resume has a chunk of its type and with its place exactly if it is there and not
-- empty, for projects, experiences and skills, whatever the enrichment and the settings.
pub build_chunks-covers :
    (cut : Text → List Text) (o : Options) (resume : StructuredData) (enrichment : ResumeEnrichment)
    (k : ℕ)
    → (any (is_of project k) (build_chunks cut o resume enrichment)
        ≡ kept_at is_empty_project k resume.projects)
      × (any (is_of experience k) (build_chunks cut o resume enrichment)
          ≡ kept_at is_empty_experience k resume.experiences)
      × (any (is_of skill k) (build_chunks cut o resume enrichment)
          ≡ kept_at is_empty_skill k resume.skills)
unfolding build_chunks
build_chunks-covers cut o resume enrichment k = (
  three (is_of project k) ps es ss
      ∙ ground (
        arith,
        own_projects,
        other_experiences project (λ m. refl),
        other_skills project (λ m. refl),
      ),
  three (is_of experience k) ps es ss
      ∙ ground (
        arith,
        own_experiences,
        other_projects experience (λ m. refl),
        other_skills experience (λ m. refl),
      ),
  three (is_of skill k) ps es ss
      ∙ ground (
        arith,
        own_skills,
        other_projects skill (λ m. refl),
        other_experiences skill (λ m. refl),
      ),
)
  where
    ps : List (Chunk × Extra)
    ps = each is_empty_project (project_chunks cut o) enrichment.projects 0 resume.projects

    es : List (Chunk × Extra)
    es =
        each is_empty_experience (experience_chunks cut o) enrichment.experiences 0
          resume.experiences

    ss : List (Chunk × Extra)
    ss = each is_empty_skill (skill_chunks o) enrichment.skills 0 resume.skills

    zero_plus : (n : ℕ) → n ≡ 0 + n
    zero_plus n = omega arith

    own_projects : any (is_of project k) ps ≡ kept_at is_empty_project k resume.projects
    own_projects =
        ap (λ m. any (is_of project m) ps) (zero_plus k)
        ∙ each_own project is_empty_project (project_chunks cut o) enrichment.projects
            (project_chunks-IsFrom cut o) 0 k resume.projects

    own_experiences : any (is_of experience k) es ≡ kept_at is_empty_experience k resume.experiences
    own_experiences =
        ap (λ m. any (is_of experience m) es) (zero_plus k)
        ∙ each_own experience is_empty_experience (experience_chunks cut o) enrichment.experiences
            (experience_chunks-IsFrom cut o) 0 k resume.experiences

    own_skills : any (is_of skill k) ss ≡ kept_at is_empty_skill k resume.skills
    own_skills =
        ap (λ m. any (is_of skill m) ss) (zero_plus k)
        ∙ each_own skill is_empty_skill (skill_chunks o) enrichment.skills (skill_chunks-IsFrom o) 0
            k resume.skills

    other_projects :
        (u : ChunkType)
        → ((m : ℕ) → (type_eq u project && (0 + m) == k) ≡ false)
        → any (is_of u k) ps ≡ false
    other_projects u n =
        each_other project is_empty_project (project_chunks cut o) enrichment.projects
          (project_chunks-IsFrom cut o) u 0 k resume.projects n

    other_experiences :
        (u : ChunkType)
        → ((m : ℕ) → (type_eq u experience && (0 + m) == k) ≡ false)
        → any (is_of u k) es ≡ false
    other_experiences u n =
        each_other experience is_empty_experience (experience_chunks cut o) enrichment.experiences
          (experience_chunks-IsFrom cut o) u 0 k resume.experiences n

    other_skills :
        (u : ChunkType)
        → ((m : ℕ) → (type_eq u skill && (0 + m) == k) ≡ false)
        → any (is_of u k) ss ≡ false
    other_skills u n =
        each_other skill is_empty_skill (skill_chunks o) enrichment.skills (skill_chunks-IsFrom o) u
          0 k resume.skills n
