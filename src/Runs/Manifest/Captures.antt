-- ===== src/Runs/Manifest/Captures.antt =====
-- The captures of a manifest by phase, device and port (migration_validator/runs/manifest.py).
use Prim.Native.Nat.{max}
use migration_status_check.Base.{
  ◌≤◌, String, ◌≡◌, refl, true, false, Option, some, List, [], ◌∷◌, string_eq, option_eq,
  if◌then◌else◌, find?, count_by, arith, eq_iff, eq_refl, Bool-cases, ◌↔◌, ◌⊎◌, inl, inr, sym, ◌∙◌,
}
use migration_status_check.Runs.Manifest.{
  CaptureRecord, RunManifest, is_capture, put_capture, record_capture, find_capture,
}

-- At most one capture has the key.
abbrev pub AreUnique : List CaptureRecord → Type 0
AreUnique cs =
    (phase device : String) (port : Option String) → count_by (is_capture phase device port) cs ≤ 1

pub is_capture_iff :
    (phase device : String) (port : Option String) (r : CaptureRecord)
    → (is_capture phase device port r ≡ true)
      ↔ ((r.phase ≡ phase) × (r.device ≡ device) × (r.port ≡ port))
unfolding is_capture
is_capture_iff phase device port r = (
  λ h. ground (arith, eq_iff r.phase phase, eq_iff r.device device, eq_iff r.port port),
  λ h. rw (h.0, h.1, h.2, eq_refl phase, eq_refl device, eq_refl port),
)

is_capture_self : (r : CaptureRecord) → is_capture r.phase r.device r.port r ≡ true
is_capture_self r = (is_capture_iff r.phase r.device r.port r).1 (refl, refl, refl)

-- Two records of one key answer every question about keys alike.
same_key :
    (r c : CaptureRecord)
    → is_capture r.phase r.device r.port c ≡ true
    → (phase device : String) (port : Option String)
    → is_capture phase device port c ≡ is_capture phase device port r
unfolding is_capture
same_key r c h phase device port =
    let (a, b, d) = (is_capture_iff r.phase r.device r.port c).0 h in rw (a, b, d)

-- No question is answered by two records of different keys.
other_key :
    (r c : CaptureRecord)
    → is_capture r.phase r.device r.port c ≡ false
    → (phase device : String) (port : Option String)
    → (is_capture phase device port c ≡ false) ⊎ (is_capture phase device port r ≡ false)
other_key r c e phase device port = elim (Bool-cases (is_capture phase device port c)) [
  | inr f ↦ inl f
  | inl f ↦ elim (Bool-cases (is_capture phase device port r)) [
    | inr g ↦ inr g
    | inl g ↦
        let (a, b, d) = (is_capture_iff phase device port c).0 f in
        let (a', b', d') = (is_capture_iff phase device port r).0 g in
        absurd (
          cc (e, (is_capture_iff r.phase r.device r.port c).1 (a ∙ sym a', b ∙ sym b', d ∙ sym d')))
  ]
]

module _ (phase device : String) (port : Option String) (r : CaptureRecord) where
  find?-put_capture :
      (cs : List CaptureRecord)
      → find? (is_capture phase device port) (put_capture cs r) ≡ (
          if is_capture phase device port r
          then some r
          else find? (is_capture phase device port) cs)
  unfolding put_capture
  find?-put_capture [] = refl
  find?-put_capture (c ∷ cs) = elim (Bool-cases (is_capture r.phase r.device r.port c)) [
    | inl e ↦ rw (e, same_key r c e phase device port) (ground arith)
    | inr e ↦ rw e (ground (arith, find?-put_capture cs, other_key r c e phase device port))
  ]

  count_by-put_capture :
      (cs : List CaptureRecord)
      → count_by (is_capture phase device port) (put_capture cs r) ≡ (
          if is_capture phase device port r
          then max 1 (count_by (is_capture phase device port) cs)
          else count_by (is_capture phase device port) cs)
  unfolding put_capture
  count_by-put_capture [] = ground arith
  count_by-put_capture (c ∷ cs) = elim (Bool-cases (is_capture r.phase r.device r.port c)) [
    | inl e ↦ rw (e, same_key r c e phase device port) (ground arith)
    | inr e ↦ rw e (ground (arith, count_by-put_capture cs, other_key r c e phase device port))
  ]

-- Recording a capture is a write: under its own key the new record is found, under any other key
-- what was found before.
find_capture-record_capture :
    (m : RunManifest) (r : CaptureRecord) (phase device : String) (port : Option String)
    → find_capture (record_capture m r) phase device port
      ≡ (if is_capture phase device port r then some r else find_capture m phase device port)
unfolding find_capture record_capture
find_capture-record_capture m r phase device port = find?-put_capture phase device port r m.captures

-- Recording a capture never gives a phase, device and port a second record.
pub record_capture-AreUnique :
    (m : RunManifest) (r : CaptureRecord)
    → AreUnique m.captures
    → AreUnique (record_capture m r).captures
unfolding record_capture
record_capture-AreUnique m r unique phase device port =
    ground (arith, count_by-put_capture phase device port r m.captures, unique phase device port)
