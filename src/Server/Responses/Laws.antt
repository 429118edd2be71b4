-- ===== src/Server/Responses/Laws.antt =====
-- The calls that server.go makes to write an answer, through `ResponseWriterWithCode`.
use xwork.Prelude.{ℕ, String, ◌≡◌, ◌≢◌, refl}
use xwork.Prelude.Result.{Result, ok, err, pure, ◌>>◌}
use xwork.Server.Routes.{Body}
use xwork.Server.Responses.{
  ResponseWriter, WithCode, response_writer_with_code, Marshal, write_marshalled, do_write_json,
  write_json_error, write_json_data, write_json_data_with_meta, or_internal_error, write_response,
}
use xwork.Server.Responses.Delivery.{
  internal_error, object_of, refusal, after_text, success, delivered,
}

module _ (net : ResponseWriter) (marshal : Marshal) where
  abbrev wrapped : ResponseWriter
  wrapped = response_writer_with_code net

  -- the writer of the log and of the answer
  abbrev pub with_code : net.Writer × ℕ → WithCode net.Writer
  with_code (w, code) = record { code = code; inner = w }

  abbrev forget : Result ℕ → Result (Unit {0})
  forget (ok n) = ok tt
  forget (err e) = err e

  after_write :
      (code : ℕ) (p : Result ℕ × net.Writer)
      → ((λ (w : WithCode net.Writer). (p.0, w)) >> pure tt) (with_code (p.1, code))
        ≡ (forget p.0, with_code (p.1, code))
  after_write code (ok n, w) = refl
  after_write code (err e, w) = refl

  -- an error answer
  write_marshalled-refusal :
      (m : Result String) (code : ℕ) (w : net.Writer × ℕ)
      → (write_marshalled wrapped marshal m code (with_code w)).1 ≡ with_code (refusal net code m w)
  write_marshalled-refusal (ok text) code (w, logged) =
      let typed = net.set_header "Content-Type" "application/json" w in
      let p = net.write text (net.write_header code typed) in rw (after_write code p) refl
  write_marshalled-refusal (err e) code (w, logged) = refl

  -- an answer with data
  answered-success :
      (m : Result String) (w : net.Writer)
      → or_internal_error wrapped marshal
          (write_marshalled wrapped marshal m 200 (with_code (w, 0)))
        ≡ with_code (success net m (marshal internal_error) w)
  unfolding write_json_error do_write_json
  answered-success (ok text) w =
      let typed = net.set_header "Content-Type" "application/json" w in
      let p = net.write text (net.write_header 200 typed) in rw (after_write 200 p) (done p)
    where
      done :
          (p : Result ℕ × net.Writer)
          → or_internal_error wrapped marshal (forget p.0, with_code (p.1, 200))
            ≡ with_code (after_text net (marshal internal_error) p)
      done (ok n, after) = refl
      done (err e, after) = write_marshalled-refusal (marshal internal_error) 500 (after, 200)
  answered-success (err e) w = write_marshalled-refusal (marshal internal_error) 500 (w, 0)

  -- an answer of any kind, of a handler that has not panicked
  pub write_response-delivered :
      (code : ℕ) (body : Body) (w : net.Writer)
      → body ≢ Body.aborted
      → write_response wrapped marshal (record { code = code; body = body }) (with_code (w, 0))
        ≡ with_code (delivered net marshal code body w)
  unfolding write_response write_json_data write_json_data_with_meta write_json_error do_write_json
  write_response-delivered code (Body.failure message) w calm =
      write_marshalled-refusal (marshal (object_of (Body.failure message))) code (w, 0)
  write_response-delivered code (Body.capabilities read_only job_query retry_failed) w calm =
      answered-success (marshal (object_of (Body.capabilities read_only job_query retry_failed))) w
  write_response-delivered code (Body.counted count) w calm =
      answered-success (marshal (object_of (Body.counted count))) w
  write_response-delivered code (Body.listed found has_more) w calm =
      answered-success (marshal (object_of (Body.listed found has_more))) w
  write_response-delivered code (Body.retried job) w calm =
      answered-success (marshal (object_of (Body.retried job))) w
  write_response-delivered code Body.aborted w calm = absurd (calm refl)
