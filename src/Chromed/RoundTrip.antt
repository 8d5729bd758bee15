-- ===== src/Chromed/RoundTrip.antt =====
-- The payloads of the chromed protocol are read back as they were written.
use vivary.Prelude.{
  refl, true, false, Bool, ap, ◌∙◌, ℕ, ◌%◌, ◌^◌, ◌≤◌, ◌<◌, ◌≡◌, List, [], ◌∷◌, ◌++◌, append-nil,
  length, arith,
}
use vivary.Mus.{Source, ok, pure}
use vivary.Mus.Varint.{IsU64}
use vivary.Mus.Strings.{varint_bytes, string_bytes, wire_form}
use vivary.Mus.Wire.{Reads-bind, Reads-full, Reads, Reads-pure, concat, reads_rules}
use native.Mathlib.Nat.{mod-eq_of_lt}
use vivary.Mus.Flags.{bool_byte, byte_bool, byte_bool-bool_byte}
use vivary.Chromed.Payloads.{
  StatusResponse, marshal_status_response, unmarshal_status_response, second_bool, AcquireRequest,
  marshal_acquire_request, unmarshal_acquire_request, AcquireResponse, marshal_acquire_response,
  unmarshal_acquire_response, ReleaseRequest, marshal_release_request, unmarshal_release_request,
  ReleaseResponse, marshal_release_response, unmarshal_release_response, StatusRequest,
  marshal_status_request, unmarshal_status_request,
}

-- The values of a AcquireRequest that its reader lets in.
pub record IsAcquireRequest (p : AcquireRequest) : Type 0 where
  pub agent_id : length p.agent_id ≤ 128
  pub proxy_server : length p.proxy_server ≤ 1024
  pub timeout_sec : p.timeout_sec < 2 ^ 32

Reads-acquire_request :
    (p : AcquireRequest)
    → IsAcquireRequest p
    → Reads unmarshal_acquire_request p (marshal_acquire_request p)
Reads-acquire_request p h =
    rw wire
      (unfold unmarshal_acquire_request in search (reads_rules, timeout_sec_wide, last) depth 20)
  where
    wire :
        marshal_acquire_request p
        ≡ concat (
            string_bytes p.agent_id
            ∷ string_bytes p.proxy_server
            ∷ varint_bytes p.timeout_sec
            ∷ (bool_byte p.headless ∷ [])
            ∷ [])
    wire = unfold marshal_acquire_request concat in simp (wire_form, append-nil)

    timeout_sec_wide : IsU64 p.timeout_sec
    timeout_sec_wide = omega (arith, h.timeout_sec)

    last :
        Reads
          (pure (record p {
            timeout_sec = p.timeout_sec % 2 ^ 32;
            headless = byte_bool (bool_byte p.headless ∷ []);
          }))
          p
          (concat [])
    last = Reads-pure (
        ap
          (λ (x : ℕ). record p {
            timeout_sec = x;
            headless = byte_bool (bool_byte p.headless ∷ []);
          })
          (mod-eq_of_lt h.timeout_sec)
        ∙ ap (λ (x : Bool). record p { headless = x }) (byte_bool-bool_byte p.headless))

-- An acquire request is read back, by any reader, and what follows is left.
pub unmarshal_acquire_request-marshal_acquire_request :
    (p : AcquireRequest) (src : Source) (rest : List ℕ)
    → IsAcquireRequest p
    → unmarshal_acquire_request src (marshal_acquire_request p ++ rest) ≡ ok (p, rest)
unmarshal_acquire_request-marshal_acquire_request p src rest h =
    (Reads-acquire_request p h).at src rest

-- The values of a AcquireResponse that its reader lets in.
pub record IsAcquireResponse (p : AcquireResponse) : Type 0 where
  pub debug_addr : length p.debug_addr ≤ 256
  pub profile_dir : length p.profile_dir ≤ 4096
  pub error : length p.error ≤ 4096

Reads-acquire_response :
    (p : AcquireResponse)
    → IsAcquireResponse p
    → Reads unmarshal_acquire_response p (marshal_acquire_response p)
Reads-acquire_response p h =
    rw wire (unfold unmarshal_acquire_response in search (reads_rules, last) depth 20)
  where
    wire :
        marshal_acquire_response p
        ≡ concat (
            (bool_byte p.success ∷ [])
            ∷ string_bytes p.debug_addr
            ∷ string_bytes p.profile_dir
            ∷ string_bytes p.error
            ∷ [])
    wire = unfold marshal_acquire_response concat in simp (wire_form, append-nil)

    last : Reads (pure (record p { success = byte_bool (bool_byte p.success ∷ []) })) p (concat [])
    last = Reads-pure (ap (λ (x : Bool). record p { success = x }) (byte_bool-bool_byte p.success))

-- An acquire response is read back, by any reader, and what follows is left.
pub unmarshal_acquire_response-marshal_acquire_response :
    (p : AcquireResponse) (src : Source) (rest : List ℕ)
    → IsAcquireResponse p
    → unmarshal_acquire_response src (marshal_acquire_response p ++ rest) ≡ ok (p, rest)
unmarshal_acquire_response-marshal_acquire_response p src rest h =
    (Reads-acquire_response p h).at src rest

-- The values of a ReleaseRequest that its reader lets in.
pub record IsReleaseRequest (p : ReleaseRequest) : Type 0 where
  pub agent_id : length p.agent_id ≤ 128

Reads-release_request :
    (p : ReleaseRequest)
    → IsReleaseRequest p
    → Reads unmarshal_release_request p (marshal_release_request p)
Reads-release_request p h =
    rw wire (unfold unmarshal_release_request in search reads_rules depth 20)
  where
    wire : marshal_release_request p ≡ concat (string_bytes p.agent_id ∷ [])
    wire = unfold marshal_release_request concat in simp (wire_form, append-nil)

-- A release request is read back.
pub unmarshal_release_request-marshal_release_request :
    (p : ReleaseRequest) (src : Source) (rest : List ℕ)
    → IsReleaseRequest p
    → unmarshal_release_request src (marshal_release_request p ++ rest) ≡ ok (p, rest)
unmarshal_release_request-marshal_release_request p src rest h =
    (Reads-release_request p h).at src rest

-- The values of a ReleaseResponse that its reader lets in.
pub record IsReleaseResponse (p : ReleaseResponse) : Type 0 where
  pub error : length p.error ≤ 4096

Reads-release_response :
    (p : ReleaseResponse)
    → IsReleaseResponse p
    → Reads unmarshal_release_response p (marshal_release_response p)
Reads-release_response p h =
    rw wire (unfold unmarshal_release_response in search (reads_rules, last) depth 20)
  where
    wire :
        marshal_release_response p ≡ concat ((bool_byte p.success ∷ []) ∷ string_bytes p.error ∷ [])
    wire = unfold marshal_release_response concat in simp (wire_form, append-nil)

    last : Reads (pure (record p { success = byte_bool (bool_byte p.success ∷ []) })) p (concat [])
    last = Reads-pure (ap (λ (x : Bool). record p { success = x }) (byte_bool-bool_byte p.success))

-- A release response is read back.
pub unmarshal_release_response-marshal_release_response :
    (p : ReleaseResponse) (src : Source) (rest : List ℕ)
    → IsReleaseResponse p
    → unmarshal_release_response src (marshal_release_response p ++ rest) ≡ ok (p, rest)
unmarshal_release_response-marshal_release_response p src rest h =
    (Reads-release_response p h).at src rest

-- The values of a StatusRequest that its reader lets in.
pub record IsStatusRequest (p : StatusRequest) : Type 0 where
  pub agent_id : length p.agent_id ≤ 128

Reads-status_request :
    (p : StatusRequest)
    → IsStatusRequest p
    → Reads unmarshal_status_request p (marshal_status_request p)
Reads-status_request p h = rw wire (unfold unmarshal_status_request in search reads_rules depth 20)
  where
    wire : marshal_status_request p ≡ concat (string_bytes p.agent_id ∷ [])
    wire = unfold marshal_status_request concat in simp (wire_form, append-nil)

-- A status request is read back.
pub unmarshal_status_request-marshal_status_request :
    (p : StatusRequest) (src : Source) (rest : List ℕ)
    → IsStatusRequest p
    → unmarshal_status_request src (marshal_status_request p ++ rest) ≡ ok (p, rest)
unmarshal_status_request-marshal_status_request p src rest h =
    (Reads-status_request p h).at src rest

-- The values of a StatusResponse that its reader lets in.
pub record IsStatusResponse (p : StatusResponse) : Type 0 where
  pub debug_addr : length p.debug_addr ≤ 256
  pub profile_dir : length p.profile_dir ≤ 4096
  pub error : length p.error ≤ 4096

Reads-status_response :
    (p : StatusResponse)
    → IsStatusResponse p
    → Reads unmarshal_status_response p (marshal_status_response p)
Reads-status_response p h = rw wire (
    unfold unmarshal_status_response in
    Reads-bind _ _ _ (Reads-full (bool_byte p.found ∷ bool_byte p.running ∷ []))
      (search (reads_rules, last) depth 20))
  where
    wire :
        marshal_status_response p
        ≡ concat (
            (bool_byte p.found ∷ bool_byte p.running ∷ [])
            ∷ string_bytes p.debug_addr
            ∷ string_bytes p.profile_dir
            ∷ string_bytes p.error
            ∷ [])
    wire = unfold marshal_status_response concat in simp (wire_form, append-nil)

    first : (a b : Bool) → byte_bool (bool_byte a ∷ bool_byte b ∷ []) ≡ a
    first true b = refl
    first false b = refl

    next : (a b : Bool) → second_bool (bool_byte a ∷ bool_byte b ∷ []) ≡ b
    next a true = refl
    next a false = refl

    last :
        Reads
          (pure (record p {
            found = byte_bool (bool_byte p.found ∷ bool_byte p.running ∷ []);
            running = second_bool (bool_byte p.found ∷ bool_byte p.running ∷ []);
          }))
          p
          (concat [])
    last = Reads-pure (
        ap
          (λ (b : Bool). record p {
            found = b;
            running = second_bool (bool_byte p.found ∷ bool_byte p.running ∷ []);
          })
          (first p.found p.running)
        ∙ ap (λ (b : Bool). record p { running = b }) (next p.found p.running))

-- A status response is read back, by any reader, and what follows is left.
pub unmarshal_status_response-marshal_status_response :
    (p : StatusResponse) (src : Source) (rest : List ℕ)
    → IsStatusResponse p
    → unmarshal_status_response src (marshal_status_response p ++ rest) ≡ ok (p, rest)
unmarshal_status_response-marshal_status_response p src rest h =
    (Reads-status_response p h).at src rest
