-- ===== src/Pipeline/Storage/Tests.antt =====
-- The theorems on an object store in memory.
use gb_industrial_energy_dat.Prelude.{
  String, ◌≡◌, refl, none, some, [], ◌∷◌, if◌then◌else◌, ◌==◌, ok, err,
}
use gb_industrial_energy_dat.Pipeline.Storage.{
  Bytes, StorageError, same_bytes, reused, ObjectInfo, info, verify_replay, describe, after_put,
  put_immutable,
}
use gb_industrial_energy_dat.Pipeline.Storage.Memory.{
  Objects, write, head_of, memory_client, memory_client-Laws,
}
use gb_industrial_energy_dat.Pipeline.Storage.Immutable.{
  put_immutable_refuses, put_immutable_stores,
}

abbrev digest : Bytes → String
digest c = "digest"

abbrev one_object : Objects
one_object b k = if k == "old" then some (1 ∷ 2 ∷ []) else none

reused_info : ObjectInfo
reused_info =
    info memory_client digest "raw" "old" (1 ∷ 2 ∷ []) "application/json" reused
      "2026-08-27T12:00:00Z"

replayed :
    (put_immutable memory_client digest "raw" "old" (1 ∷ 2 ∷ []) "application/json" one_object).0
    ≡ ok reused_info
unfolding put_immutable after_put verify_replay describe same_bytes write head_of reused_info
replayed = refl

abbrev old_content : Bytes
old_content = 1 ∷ 2 ∷ []

abbrev new_content : Bytes
new_content = 3 ∷ []

put_immutable_refuses_example :
    (e : StorageError) × ((put_immutable memory_client digest "raw" "old" new_content
        "application/json" one_object).0
      ≡ err e)
    × ((put_immutable memory_client digest "raw" "old" new_content "application/json" one_object).1
          "raw" "old"
        ≡ some old_content)
put_immutable_refuses_example =
    put_immutable_refuses (λ s. s) memory_client memory_client-Laws digest "raw" "old" new_content
      "application/json" one_object old_content refl (λ e. cc)

put_immutable_stores_example :
    ((put_immutable memory_client digest "raw" "old" (1 ∷ 2 ∷ []) "application/json" one_object).1
        "raw" "old"
      ≡ some (1 ∷ 2 ∷ []))
    × (reused_info.sha256 ≡ "digest")
    × (reused_info.content_length ≡ 2)
put_immutable_stores_example =
    put_immutable_stores (λ s. s) memory_client memory_client-Laws digest "raw" "old" (1 ∷ 2 ∷ [])
      "application/json" one_object reused_info replayed
