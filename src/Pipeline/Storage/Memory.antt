-- ===== src/Pipeline/Storage/Memory.antt =====
-- An object store in memory, in which every object is JSON.
use gb_industrial_energy_dat.Prelude.{
  String, ◌≡◌, refl, ◌&&◌, Option, none, some, length, if◌then◌else◌, ◌==◌, eq_iff, arith,
}
use gb_industrial_energy_dat.Pipeline.Storage.{
  Bytes, PutOutcome, stored, precondition_failed, Head, S3Client,
}
use gb_industrial_energy_dat.Pipeline.Storage.Immutable.{Laws}

abbrev pub Objects : Type 0
Objects = String → String → Option Bytes

unfoldable pub write : Option Bytes → String → String → Bytes → Objects → PutOutcome × Objects
write none b k c s = (stored, λ b' k'. if (b' == b) && (k' == k) then some c else s b' k')
write (some old) b k c s = (precondition_failed, s)

unfoldable pub head_of : Option Bytes → Option Head
head_of none = none
head_of (some c) = some (record {
  content_length = some (length c);
  content_type = "application/json";
  last_modified = some "2026-08-27T12:00:00Z";
})

abbrev pub memory_client : S3Client Objects
memory_client = record {
  put_object = λ b k c t s. write (s b k) b k c s;
  head_object = λ b k s. (head_of (s b k), s);
  get_object = λ b k s. (s b k, s);
}

write_keeps :
    (o : Option Bytes) (b k : String) (c : Bytes) (s : Objects) (b' k' : String) (v : Bytes)
    → s b k ≡ o
    → s b' k' ≡ some v
    → (write o b k c s).1 b' k' ≡ some v
unfolding write
write_keeps (some old) b k c s b' k' v h there = there
write_keeps none b k c s b' k' v h there = ground (arith, eq_iff b' b, eq_iff k' k, h, there)

write_stores :
    (o : Option Bytes) (b k : String) (c : Bytes) (s : Objects)
    → (write o b k c s).0 ≡ stored
    → (write o b k c s).1 b k ≡ some c
unfolding write
write_stores (some old) b k c s h = cc
write_stores none b k c s h = ground (arith, eq_iff b b, eq_iff k k)

pub memory_client-Laws : Laws (λ s. s) memory_client
memory_client-Laws = record {
  head_reads = λ b k s. refl;
  get_reads = λ b k s. refl;
  get_truthful = λ b k s c h. h;
  put_keeps = λ b k c t s b' k' v h. write_keeps (s b k) b k c s b' k' v refl h;
  put_stores = λ b k c t s h. write_stores (s b k) b k c s h;
}
