-- ===== src/Protocol/Message/Object/Same.antt =====
-- The equality tests of citations decide equality.
use eliot_search.Prelude.{◌≡◌, refl, true, arith, bytes_eq→eq}
use eliot_search.Protocol.Message.Object.{
  ObjectKindDto, source, prepared, kind_eq, ObjectRefDto, object_eq, RawSourceRef, source_eq,
}

kind_eq→eq : (a b : ObjectKindDto) → kind_eq a b ≡ true → a ≡ b
kind_eq→eq source source h = refl
kind_eq→eq source prepared h = absurd (cc)
kind_eq→eq prepared source h = absurd (cc)
kind_eq→eq prepared prepared h = refl

pub object_eq→eq : (a b : ObjectRefDto) → object_eq a b ≡ true → a ≡ b
object_eq→eq a b h =
    let version : a.version ≡ b.version = ground arith in
    let kind : a.kind ≡ b.kind = kind_eq→eq a.kind b.kind (ground arith) in
    let digest : a.digest ≡ b.digest = bytes_eq→eq a.digest b.digest (ground arith) in
    let size : a.bytes ≡ b.bytes = ground arith in cc

pub source_eq→eq : (a b : RawSourceRef) → source_eq a b ≡ true → a ≡ b
source_eq→eq a b h =
    let space : a.source_namespace_id ≡ b.source_namespace_id =
      bytes_eq→eq a.source_namespace_id b.source_namespace_id (ground arith) in
    let id : a.source_id ≡ b.source_id = bytes_eq→eq a.source_id b.source_id (ground arith) in
    let row : a.row_revision ≡ b.row_revision = ground arith in
    let registration : a.registration_revision ≡ b.registration_revision = ground arith in
    let input : a.input ≡ b.input = object_eq→eq a.input b.input (ground arith) in cc
