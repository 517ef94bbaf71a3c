-- ===== src/Pb/Tests.antt =====
-- Json2pb and Pb2json at concrete inputs.
use zpp_adapter.Prelude.{◌≡◌, refl, false, none, some, [], ◌∷◌, Option, arith}
use zpp_adapter.Zsi.{Err, ok, param_invalid, is_ok}
use zpp_adapter.Json.Access.{holding}
use zpp_adapter.Json.Each.{for_each}
use zpp_adapter.Json.Each.Ends.{enough}
use zpp_adapter.Json.Small.{Val, scalar as num_val, obj_end, obj_more, small}
use zpp_adapter.Pb.Load.{
  set_field, merge_message, json2field, null, Msgs, made, json2pb_new, json2pb,
}
use zpp_adapter.Pb.Load.Meaning as Denotes
use zpp_adapter.Pb.Load.Meaning.{Denotes, typed}
use zpp_adapter.Pb.Load.Sound.{json2pb-Denotes}
use zpp_adapter.Pb.Load.Failing
use zpp_adapter.Pb.Load.Failing.{Opens, Refused, Crashes}
use zpp_adapter.Pb.Load.Failing.Reported.{json2pb-Refused}
use zpp_adapter.Pb.Load.Failing.Fatal.{json2pb-Crashes}
use zpp_adapter.Pb.Save.{pb2json}
use zpp_adapter.Pb.Save.Meaning.{Savable, plain, single, scalar, many, child, more, no_more, done}
use zpp_adapter.Pb.Save.RoundTrip.{document, enough_save, json2pb-pb2json}
use zpp_adapter.Pb.Tiny.{Msg, end, num, sub, tiny}

-- A message of type 1 with the number 8.
abbrev inner : Msg
inner = num 0 8 (end 1)

-- A number, a message, two numbers and a message in repeated fields.
abbrev whole : Msg
whole = num 0 5 (sub 1 inner (num 2 6 (num 2 7 (sub 3 inner (end 0)))))

abbrev inner_doc : Val
inner_doc = obj_more 0 (num_val 4 1) (obj_more 1 (num_val 0 8) obj_end)

inner_Denotes : Denotes tiny inner_doc inner
unfolding set_field
inner_Denotes =
    typed refl refl refl refl refl refl (Denotes.one (Denotes.scalar refl refl refl) Denotes.done)

json2pb-Denotes_example :
    (json2pb_new tiny (enough small (Option (Msgs tiny)) inner_doc) inner_doc
      ≡ some (ok, made inner))
    × (json2pb tiny (enough small (Option (Msgs tiny)) inner_doc) inner_doc (end 1)
        ≡ some (ok, inner))
json2pb-Denotes_example =
    json2pb-Denotes tiny inner_doc inner (end 1) (enough small (Option (Msgs tiny)) inner_doc)
      inner_Denotes refl (omega arith)

inner_Savable : Savable tiny inner
inner_Savable =
    plain {m = inner} {new = end 1} refl refl refl refl refl (refl, tt) (tt, tt)
      (single refl refl refl (scalar (refl, refl, refl) refl) done)

whole_Savable : Savable tiny whole
whole_Savable =
    plain {m = whole} {new = end 0} refl refl refl refl refl (refl, (refl, (refl, (refl, tt))))
      ((refl, (refl, (refl, tt))), ((refl, (refl, tt)), ((refl, tt), (tt, tt))))
      (single refl refl refl (scalar (refl, refl, refl) refl) (
        single refl refl refl (child (refl, refl, refl) refl refl refl inner_Savable) (
          many refl refl
            (more (scalar (refl, refl, refl) refl) (more (scalar (refl, refl, refl) refl) no_more))
            (many refl refl (more (child (refl, refl, refl) refl refl refl inner_Savable) no_more)
              done))))

json2pb-pb2json_example :
    (pb2json tiny (enough_save tiny whole_Savable) (holding small obj_end) whole
      ≡ some (ok, holding small (document tiny whole_Savable)))
    × (json2pb tiny
          (enough small (Option (Msgs tiny)) (document tiny whole_Savable))
          (document tiny whole_Savable)
          (end 0)
        ≡ some (ok, whole))
json2pb-pb2json_example =
    json2pb-pb2json tiny whole (end 0) obj_end whole_Savable (enough_save tiny whole_Savable)
      (enough small (Option (Msgs tiny)) (document tiny whole_Savable)) (omega arith) (omega arith)
      refl

-- The document of a message whose field 0 is 5 and whose field 1 is an object.
abbrev doc_with : Val → Val
doc_with v = obj_more 0 (num_val 4 0) (obj_more 1 (num_val 0 5) (obj_more 2 v obj_end))

doc_with-Opens : (v : Val) → Opens tiny (doc_with v) (end 0) ((1, num_val 0 5) ∷ ((2, v) ∷ []))
doc_with-Opens v = record {
  key = 0;
  first = num_val 4 0;
  type = 0;
  object = refl;
  members = refl;
  at = refl;
  text = refl;
  found = refl;
  created = refl;
}

-- The inner message has a text for its number.
abbrev wrong_inner : Val
wrong_inner = obj_more 0 (num_val 4 1) (obj_more 1 (num_val 4 9) obj_end)

wrong_Opens : Opens tiny wrong_inner (end 1) ((1, num_val 4 9) ∷ [])
wrong_Opens = record {
  key = 0;
  first = num_val 4 1;
  type = 1;
  object = refl;
  members = refl;
  at = refl;
  text = refl;
  found = refl;
  created = refl;
}

wrong_Refused : Refused tiny (doc_with wrong_inner) param_invalid
unfolding set_field merge_message
wrong_Refused = Failing.part {n = num 0 5 (sub 1 (end 1) (end 0))} (doc_with-Opens wrong_inner) (
    Failing.Fails.later (Denotes.scalar refl refl refl) (
      Failing.Fails.here (
        Failing.FailsAt.inside wrong_Opens
          (Failing.Fails.here (Failing.FailsAt.refused refl refl refl refl)) refl)))

json2pb-Refused_example :
    (is_ok param_invalid ≡ false)
    × (json2pb_new tiny
          (enough small (Option (Msgs tiny)) (doc_with wrong_inner))
          (doc_with wrong_inner)
        ≡ some (param_invalid, null))
    × (json2pb tiny
          (enough small (Option (Msgs tiny)) (doc_with wrong_inner))
          (doc_with wrong_inner)
          inner
        ≡ some (param_invalid, inner))
json2pb-Refused_example =
    json2pb-Refused tiny (doc_with wrong_inner) param_invalid inner
      (enough small (Option (Msgs tiny)) (doc_with wrong_inner)) wrong_Refused (omega arith)

-- The inner object is of a type that is not known.
abbrev unknown_inner : Val
unknown_inner = obj_more 0 (num_val 4 7) obj_end

unknown_Crashes : Crashes tiny ((1, num_val 0 5) ∷ ((2, unknown_inner) ∷ [])) (end 0)
unfolding set_field merge_message
unknown_Crashes = Failing.Crashes.later {n = num 0 5 (end 0)} (Denotes.scalar refl refl refl) (
    Failing.Crashes.here (
      Failing.CrashesAt.unknown
        (record {
          key = 0;
          first = num_val 4 7;
          others = [];
          object = refl;
          members = refl;
          at = refl;
          text = refl;
          not_found = refl;
        })
        refl))

json2pb-Crashes_example :
    ((ret : Err) × (for_each small
          (Option (Msgs tiny))
          (enough small (Option (Msgs tiny)) (doc_with unknown_inner))
          (json2field tiny)
          (doc_with unknown_inner)
          (some [])
        ≡ some (ret, none)))
    × (json2pb_new tiny
          (enough small (Option (Msgs tiny)) (doc_with unknown_inner))
          (doc_with unknown_inner)
        ≡ none)
    × (json2pb tiny
          (enough small (Option (Msgs tiny)) (doc_with unknown_inner))
          (doc_with unknown_inner)
          inner
        ≡ none)
json2pb-Crashes_example =
    json2pb-Crashes tiny (doc_with unknown_inner) (end 0) inner
      ((1, num_val 0 5) ∷ ((2, unknown_inner) ∷ []))
      (enough small (Option (Msgs tiny)) (doc_with unknown_inner)) (doc_with-Opens unknown_inner)
      unknown_Crashes (omega arith)
