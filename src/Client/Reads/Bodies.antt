-- ===== src/Client/Reads/Bodies.antt =====
-- custom_components/doorfast/client.py, `_bounded_audio_body`: the parts that make a body.
use doorfastforha.Prelude.{
  ℕ, ◌≡◌, ◌≤◌, ◌<◌, ◌∙◌, ◌||◌, List, [], ◌∷◌, ◌++◌, ◌==◌, ltb, length, arith, Bool-cases, inl, inr,
}
use mathlib.Core.List.{append_assoc, append-nil}
use doorfastforha.Audio.Hub.{ok}
use doorfastforha.Client.Reads.{bounded_audio_body}

-- The bytes up to the first empty part.
abbrev pub joined : List (List ℕ) → List ℕ
joined [] = []
joined ([] ∷ parts) = []
joined ((b ∷ bs) ∷ parts) = (b ∷ bs) ++ joined parts

body_loop :
    (body : List ℕ) (parts : List (List ℕ)) (whole : List ℕ)
    → length body ≤ 4096
    → bounded_audio_body body parts ≡ ok whole
    → (whole ≡ body ++ joined parts) × (length whole < 4096)
unfolding bounded_audio_body
body_loop body [] whole l h = (rw append-nil (ground arith), ground arith)
body_loop body ([] ∷ parts) whole l h = (rw append-nil (ground arith), ground arith)
body_loop body ((b ∷ bs) ∷ parts) whole l h =
    elim (Bool-cases (length body == 4096 || ltb 4096 (length (body ++ b ∷ bs)))) [
      | inl bad ↦ absurd (ground arith)
      | inr good ↦
          (let step = body_loop (body ++ b ∷ bs) parts whole (ground arith) (ground arith) in
            (step.0 ∙ append_assoc body (b ∷ bs) (joined parts), step.1))
    ]

-- A body that is accepted is all the bytes that were read, up to the first empty part, and has fewer
-- than 4096 of them.
pub bounded_audio_body-joined :
    (parts : List (List ℕ)) (whole : List ℕ)
    → bounded_audio_body [] parts ≡ ok whole
    → (whole ≡ joined parts) × (length whole < 4096)
bounded_audio_body-joined parts whole h = body_loop [] parts whole (omega arith) h
