-- ===== src/Worker/Chunking.antt =====
-- worker/src/analysis/chunking.py: the chunks of a structured resume. The regular expression that
-- cuts a text at the ends of its sentences is the parameter `cut`.
pub mod Pack
pub mod Plain
pub mod Covers
use kkori_ai.Prelude.{
  ℕ, zero, suc, ◌+◌, ◌-◌, ◌/◌, Bool, true, false, not, ◌&&◌, ◌||◌, Option, none, some, List, [],
  ◌∷◌, ◌++◌, Text, ltb, leb, max, length, is_empty, select, map, strip, if◌then◌else◌,
}

pub data ChunkType : Type 0 where
  project experience skill : ChunkType

pub record Chunk : Type 0 where
  pub content : Text
  pub type : ChunkType
  pub source_index : ℕ
  pub label : Text
  pub chunk_version : ℕ

pub record Skill : Type 0 where
  pub category : Text
  pub items : List Text

pub record Project : Type 0 where
  pub name : Text
  pub role : Text
  pub description : Text
  pub tech_stacks : List Text

pub record Experience : Type 0 where
  pub title : Text
  pub description : Text

-- The profile is not chunked.
pub record StructuredData : Type 0 where
  pub skills : List Skill
  pub projects : List Project
  pub experiences : List Experience

pub record ChunkEnrichment : Type 0 where
  pub topics : List Text
  pub related_concepts : List Text
  pub question_hints : List Text

pub record Achievement : Type 0 where
  pub enrichment : ChunkEnrichment
  pub text : Text

pub record ProjectAnalysis : Type 0 where
  pub intro : Text
  pub achievements : List Achievement

pub record ResumeEnrichment : Type 0 where
  pub projects : List ProjectAnalysis
  pub experiences : List ChunkEnrichment
  pub skills : List ChunkEnrichment

-- "[프로젝트] "
abbrev pub project_text : Text
project_text = 91 ∷ 54532 ∷ 47196 ∷ 51229 ∷ 53944 ∷ 93 ∷ 32 ∷ []

-- " · 역할 "
abbrev pub role_text : Text
role_text = 32 ∷ 183 ∷ 32 ∷ 50669 ∷ 54624 ∷ 32 ∷ []

-- "기술: "
abbrev pub tech_text : Text
tech_text = 44592 ∷ 49696 ∷ 58 ∷ 32 ∷ []

-- "[경력] "
abbrev pub experience_text : Text
experience_text = 91 ∷ 44221 ∷ 47141 ∷ 93 ∷ 32 ∷ []

-- "[스킬] "
abbrev pub skill_text : Text
skill_text = 91 ∷ 49828 ∷ 53420 ∷ 93 ∷ 32 ∷ []

-- ", "
abbrev pub comma_text : Text
comma_text = 44 ∷ 32 ∷ []

-- ": "
abbrev pub colon_text : Text
colon_text = 58 ∷ 32 ∷ []

unfoldable pub approx_tokens : Text → ℕ
approx_tokens text = length text / 2

unfoldable pub split_sentences : (Text → List Text) → Text → List Text
split_sentences cut text = select (λ s. not (is_empty s)) (map strip (cut text))

-- `separator.join(texts)`
abbrev pub join : Text → List Text → Text
join sep [] = []
join sep (t ∷ []) = t
join sep (t ∷ u ∷ r) = t ++ (sep ++ join sep (u ∷ r))

abbrev pub newline : Text
newline = 10 ∷ []

-- `"\n".join(x for x in texts if x)`
abbrev pub lines : List Text → Text
lines texts = join newline (select (λ t. not (is_empty t)) texts)

-- `_project_content(Project(name=name, role=role))`
unfoldable pub project_header : Text → Text → Text
project_header name role =
    let title = strip (project_text ++ name) in
    if is_empty role then title else title ++ (role_text ++ role)

unfoldable pub tech_tail : List Text → Text
tech_tail stacks = if is_empty stacks then [] else tech_text ++ join comma_text stacks

unfoldable pub skill_content : Skill → Text
skill_content s = skill_text ++ (s.category ++ (colon_text ++ join comma_text s.items))

abbrev pub is_empty_project : Project → Bool
is_empty_project p =
    is_empty p.name && is_empty p.role && is_empty p.description && is_empty p.tech_stacks

abbrev pub is_empty_experience : Experience → Bool
is_empty_experience e = is_empty e.title && is_empty e.description

abbrev pub is_empty_skill : Skill → Bool
is_empty_skill s = is_empty s.items

abbrev pub size : List Text → ℕ
size [] = 0
size (s ∷ ss) = approx_tokens s + size ss

abbrev pub drop : {A : Type 0} → ℕ → List A → List A
drop zero xs = xs
drop (suc n) [] = []
drop (suc n) (x ∷ xs) = drop n xs

-- `current[-n:] if n else []`
abbrev pub last_items : ℕ → List Text → List Text
last_items n current = if leb n 0 then [] else drop (length current - n) current

-- The loop over the sentences: the pieces from here on, with the current one.
unfoldable pub pack : ℕ → ℕ → List Text → List Text → List (List Text)
pack budget overlap current [] = if is_empty current then [] else current ∷ []
pack budget overlap current (s ∷ ss) =
    let cut_here = pack budget overlap (last_items overlap current ++ s ∷ []) ss in
    let go_on = pack budget overlap (current ++ s ∷ []) ss in
    if not (is_empty current) && ltb budget (size current + approx_tokens s)
    then current ∷ cut_here
    else go_on

-- Each piece under the header, the last one with the tail.
unfoldable pub render : Text → Text → List (List Text) → List Text
render header tail [] = []
render header tail (p ∷ []) =
    (let text = header ++ (newline ++ join (32 ∷ []) p) in
      if is_empty tail then text else text ++ (newline ++ tail))
    ∷ []
render header tail (p ∷ q ∷ ps) =
    (header ++ (newline ++ join (32 ∷ []) p)) ∷ render header tail (q ∷ ps)

-- `max(target_tokens - approx_tokens(header), 1)`; a negative difference is below 1
abbrev pub budget_of : ℕ → Text → ℕ
budget_of target header = max (target - approx_tokens header) 1

unfoldable pub split_oversized : Text → List Text → Text → ℕ → ℕ → List Text
split_oversized header [] tail target overlap = lines (header ∷ tail ∷ []) ∷ []
split_oversized header (s ∷ ss) tail target overlap =
    render header tail (pack (budget_of target header) overlap [] (s ∷ ss))

unfoldable pub entity_pieces : (Text → List Text) → Text → Text → Text → ℕ → ℕ → List Text
entity_pieces cut header body tail target overlap =
    if leb (approx_tokens (lines (header ∷ body ∷ tail ∷ []))) target
    then lines (header ∷ body ∷ tail ∷ []) ∷ []
    else split_oversized header (split_sentences cut body) tail target overlap

-- What is merged into the metadata of a chunk.
pub record Extra : Type 0 where
  pub achievement_index : Option ℕ
  pub enrichment : ChunkEnrichment

abbrev pub no_enrichment : ChunkEnrichment
no_enrichment = record { topics = []; related_concepts = []; question_hints = [] }

-- `_enrichment_extra`
abbrev pub enrichment_extra : Option ChunkEnrichment → Extra
enrichment_extra none = record { achievement_index = none; enrichment = no_enrichment }
enrichment_extra (some e) = record { achievement_index = none; enrichment = e }

-- `xs[i] if i < len(xs) else None`
abbrev pub at_index : {A : Type 0} → ℕ → List A → Option A
at_index n [] = none
at_index zero (x ∷ xs) = some x
at_index (suc n) (x ∷ xs) = at_index n xs

pub record Options : Type 0 where
  pub target_tokens : ℕ
  pub overlap_sentences : ℕ
  pub chunk_version : ℕ

abbrev pub chunk : Options → ChunkType → ℕ → Text → Extra → Text → Chunk × Extra
chunk o type index label extra content = (
  record {
    content = content;
    type = type;
    source_index = index;
    label = label;
    chunk_version = o.chunk_version;
  },
  extra,
)

-- The chunks of achievements, from the `j`-th on.
abbrev pub achievement_chunks :
    Options → ℕ → Text → List Text → Text → ℕ → List Achievement → List (Chunk × Extra)
achievement_chunks o index label front tail j [] = []
achievement_chunks o index label front tail j (a ∷ more) =
    chunk o project index label (record { achievement_index = some j; enrichment = a.enrichment })
      (join newline (front ++ (a.text ∷ (if is_empty tail then [] else tail ∷ []))))
    ∷ achievement_chunks o index label front tail (suc j) more

abbrev pub piece_chunks : Options → ChunkType → ℕ → Text → Extra → List Text → List (Chunk × Extra)
piece_chunks o type index label extra pieces = map (chunk o type index label extra) pieces

abbrev pub project_pieces : (Text → List Text) → Options → ℕ → Project → List (Chunk × Extra)
project_pieces cut o i p = piece_chunks o project i p.name (enrichment_extra none) (
    entity_pieces cut (project_header p.name p.role) p.description (tech_tail p.tech_stacks)
      o.target_tokens o.overlap_sentences)

-- One project with the stripped introduction and the achievements of its analysis.
abbrev pub analysed_chunks :
    (Text → List Text) → Options → ℕ → Project → Text → List Achievement → List (Chunk × Extra)
analysed_chunks cut o i p intro [] = project_pieces cut o i p
analysed_chunks cut o i p intro (a ∷ more) =
    achievement_chunks o i p.name
      (project_header p.name p.role ∷ (if is_empty intro then [] else intro ∷ []))
      (tech_tail p.tech_stacks) 0 (a ∷ more)

-- One project with its analysis, if there is one.
abbrev pub project_chunks :
    (Text → List Text) → Options → ℕ → Project → Option ProjectAnalysis → List (Chunk × Extra)
project_chunks cut o i p none = project_pieces cut o i p
project_chunks cut o i p (some analysis) =
    analysed_chunks cut o i p (strip analysis.intro) analysis.achievements

abbrev pub experience_chunks :
    (Text → List Text) → Options → ℕ → Experience → Option ChunkEnrichment → List (Chunk × Extra)
experience_chunks cut o i e enrichment =
    piece_chunks o experience i e.title (enrichment_extra enrichment) (
      entity_pieces cut (strip (experience_text ++ e.title)) e.description [] o.target_tokens
        o.overlap_sentences)

abbrev pub skill_chunks : Options → ℕ → Skill → Option ChunkEnrichment → List (Chunk × Extra)
skill_chunks o i s enrichment =
    chunk o skill i s.category (enrichment_extra enrichment) (skill_content s) ∷ []

-- `for i, x in enumerate(xs): if is_empty(x): continue; ...`, from the `i`-th entity on
abbrev pub each :
    {A B : Type 0}
    → (A → Bool)
    → (ℕ → A → Option B → List (Chunk × Extra))
    → List B
    → ℕ
    → List A
    → List (Chunk × Extra)
each empty chunks found i [] = []
each empty chunks found i (x ∷ xs) =
    (if empty x then [] else chunks i x (at_index i found)) ++ each empty chunks found (suc i) xs

-- Each chunk with what is merged into its metadata, in the order of the two lists of the source.
unfoldable pub build_chunks :
    (Text → List Text) → Options → StructuredData → ResumeEnrichment → List (Chunk × Extra)
build_chunks cut o resume enrichment =
    each is_empty_project (project_chunks cut o) enrichment.projects 0 resume.projects
    ++ each is_empty_experience (experience_chunks cut o) enrichment.experiences 0
        resume.experiences
    ++ each is_empty_skill (skill_chunks o) enrichment.skills 0 resume.skills

-- `add` and `add_entity` of `chunk_structured_data`
abbrev pub plain_chunk : Options → ChunkType → ℕ → Text → Text → Chunk
plain_chunk o type index label content = record {
  content = content;
  type = type;
  source_index = index;
  label = label;
  chunk_version = o.chunk_version;
}

abbrev pub add_entity :
    (Text → List Text) → Options → ChunkType → ℕ → Text → Text → Text → Text → List Chunk
add_entity cut o type index label header body tail =
    if leb (approx_tokens (lines (header ∷ body ∷ tail ∷ []))) o.target_tokens
    then plain_chunk o type index label (lines (header ∷ body ∷ tail ∷ [])) ∷ []
    else map (plain_chunk o type index label)
        (split_oversized header (split_sentences cut body) tail o.target_tokens o.overlap_sentences)

-- `for i, x in enumerate(xs): if is_empty(x): continue; ...`, from the `i`-th entity on
abbrev pub each_plain : {A : Type 0} → (A → Bool) → (ℕ → A → List Chunk) → ℕ → List A → List Chunk
each_plain empty chunks i [] = []
each_plain empty chunks i (x ∷ xs) =
    (if empty x then [] else chunks i x) ++ each_plain empty chunks (suc i) xs

abbrev pub plain_project : (Text → List Text) → Options → ℕ → Project → List Chunk
plain_project cut o i p =
    add_entity cut o project i p.name (project_header p.name p.role) p.description
      (tech_tail p.tech_stacks)

abbrev pub plain_experience : (Text → List Text) → Options → ℕ → Experience → List Chunk
plain_experience cut o i e =
    add_entity cut o experience i e.title (strip (experience_text ++ e.title)) e.description []

abbrev pub plain_skill : Options → ℕ → Skill → List Chunk
plain_skill o i s = plain_chunk o skill i s.category (skill_content s) ∷ []

unfoldable pub chunk_structured_data : (Text → List Text) → Options → StructuredData → List Chunk
chunk_structured_data cut o resume =
    each_plain is_empty_project (plain_project cut o) 0 resume.projects
    ++ each_plain is_empty_experience (plain_experience cut o) 0 resume.experiences
    ++ each_plain is_empty_skill (plain_skill o) 0 resume.skills
