-- ===== src/Worker/Vocabulary.antt =====
-- worker/src/report/evaluator.py and audio.py: the two vocabularies of weakness tags, each tag as
-- the code points of the string in the source.
use kkori_ai.Prelude.{List, [], ◌∷◌, Text, Bool, text_eq, any}

-- "두괄식 부족"
abbrev pub conclusion_late : Text
conclusion_late = 46160 ∷ 44292 ∷ 49885 ∷ 32 ∷ 48512 ∷ 51313 ∷ []

-- "근거 부족"
abbrev pub weak_grounds : Text
weak_grounds = 44540 ∷ 44144 ∷ 32 ∷ 48512 ∷ 51313 ∷ []

-- "구체성 부족"
abbrev pub not_concrete : Text
not_concrete = 44396 ∷ 52404 ∷ 49457 ∷ 32 ∷ 48512 ∷ 51313 ∷ []

-- "장황함"
abbrev pub verbose : Text
verbose = 51109 ∷ 54889 ∷ 54632 ∷ []

-- "질문 이탈"
abbrev pub off_question : Text
off_question = 51656 ∷ 47928 ∷ 32 ∷ 51060 ∷ 53448 ∷ []

-- "기술 개념 오류"
abbrev pub wrong_concept : Text
wrong_concept = 44592 ∷ 49696 ∷ 32 ∷ 44060 ∷ 45392 ∷ 32 ∷ 50724 ∷ 47448 ∷ []

-- "깊이 부족"
abbrev pub shallow : Text
shallow = 44618 ∷ 51060 ∷ 32 ∷ 48512 ∷ 51313 ∷ []

-- "용어 남용"
abbrev pub jargon : Text
jargon = 50857 ∷ 50612 ∷ 32 ∷ 45224 ∷ 50857 ∷ []

-- "경험 연결 부족"
abbrev pub no_experience : Text
no_experience = 44221 ∷ 54744 ∷ 32 ∷ 50672 ∷ 44208 ∷ 32 ∷ 48512 ∷ 51313 ∷ []

-- "답변 미완성"
abbrev pub unfinished : Text
unfinished = 45813 ∷ 48320 ∷ 32 ∷ 48120 ∷ 50756 ∷ 49457 ∷ []

-- "앞뒤 불일치"
abbrev pub inconsistent : Text
inconsistent = 50526 ∷ 46244 ∷ 32 ∷ 48520 ∷ 51068 ∷ 52824 ∷ []

-- "대안 검토 부족"
abbrev pub no_alternatives : Text
no_alternatives = 45824 ∷ 50504 ∷ 32 ∷ 44160 ∷ 53664 ∷ 32 ∷ 48512 ∷ 51313 ∷ []

-- "말 속도 빠름"
abbrev pub tag_fast : Text
tag_fast = 47568 ∷ 32 ∷ 49549 ∷ 46020 ∷ 32 ∷ 48736 ∷ 47492 ∷ []

-- "말 속도 느림"
abbrev pub tag_slow : Text
tag_slow = 47568 ∷ 32 ∷ 49549 ∷ 46020 ∷ 32 ∷ 45712 ∷ 47548 ∷ []

-- "잦은 침묵"
abbrev pub tag_frequent_silence : Text
tag_frequent_silence = 51110 ∷ 51008 ∷ 32 ∷ 52840 ∷ 47925 ∷ []

-- "군말 잦음"
abbrev pub tag_filler : Text
tag_filler = 44400 ∷ 47568 ∷ 32 ∷ 51110 ∷ 51020 ∷ []

abbrev pub text_weakness_tags : List Text
text_weakness_tags =
    conclusion_late ∷ weak_grounds ∷ not_concrete ∷ verbose ∷ off_question ∷ wrong_concept ∷ shallow
    ∷ jargon ∷ no_experience ∷ unfinished ∷ inconsistent ∷ no_alternatives ∷ []

abbrev pub voice_weakness_tags : List Text
voice_weakness_tags = tag_fast ∷ tag_slow ∷ tag_frequent_silence ∷ tag_filler ∷ []

-- `tag in vocabulary`
abbrev pub contains : List Text → Text → Bool
contains vocabulary tag = any (text_eq tag) vocabulary
