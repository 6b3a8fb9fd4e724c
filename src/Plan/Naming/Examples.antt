-- ===== src/Plan/Naming/Examples.antt =====
-- A limit, and the identities of a project, for the theorem on both policies.
use susun.Prelude.{some, text, [], ◌∷◌}
use susun.Engine.{new_instance}
use susun.Plan.Naming.{susun_naming, compose_naming}
use susun.Plan.Naming.Shape.{AnswersAll, naming-Answers}

naming-Answers_example :
    AnswersAll
      (some 63)
      (text "susun" ∷ [])
      (susun_naming (some 63))
      (new_instance (text "w1") (text "Web App") 0)
      (record { project = text "w1"; network = text "back" })
      (record { project = text "w1"; volume = text "__data__" })
    × AnswersAll
        (some 63)
        []
        (compose_naming (some 63))
        (new_instance (text "w1") (text "Web App") 0)
        (record { project = text "w1"; network = text "back" })
        (record { project = text "w1"; volume = text "__data__" })
naming-Answers_example =
    naming-Answers (some 63) (new_instance (text "w1") (text "Web App") 0)
      (record { project = text "w1"; network = text "back" })
      (record { project = text "w1"; volume = text "__data__" })
