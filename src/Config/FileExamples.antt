-- ===== src/Config/FileExamples.antt =====
-- The theorems about the files of internal/config at concrete inputs.
use omj_agent.Base.{◌≡◌, ◌↔◌, refl, inr, true, Option, none, some, [], ◌∷◌, arith}
use omj_agent.Text.{Text, codes, is_space}
use omj_agent.Text.Trim.{trim_space}
use omj_agent.Config.File.{
  Config, Url, default_config, unquote, validate, validate_server_url, save, load, to_text,
}
use omj_agent.Config.File.Scanned.{IsSettable}
use omj_agent.Config.File.RoundTrip.{IsWritable, load-save}
use omj_agent.Config.File.Valid.{is_valid, validate_iff}

abbrev https : Text → Option Url
https url = some record { scheme = codes "https"; host = codes "omj.example" }

abbrev enrolled : Config
enrolled = record default_config {
  server_url = codes "https://omj.example";
  machine_id = codes "m1";
  run_as_allowed = codes "omj" ∷ codes "bob" ∷ [];
}

enrolled-IsWritable : IsWritable enrolled
unfolding unquote is_space trim_space
enrolled-IsWritable =
    let plain : IsSettable (codes "https://omj.example") = record {
      trimmed = record { left = refl; right = refl };
      one_line = refl;
      unquoted = refl;
      fits = omega arith;
    } in
    record {
      server_url = plain;
      machine_id = record {
        trimmed = record { left = refl; right = refl };
        one_line = refl;
        unquoted = refl;
        fits = omega arith;
      };
      log_level = record {
        trimmed = record { left = refl; right = refl };
        one_line = refl;
        unquoted = refl;
        fits = omega arith;
      };
      concurrent_runs = omega arith;
      timeout = omega arith;
      output_bytes = omega arith;
      names =
          (record { trimmed = refl; plain = refl }, (record { trimmed = refl; plain = refl }, tt));
      names_line = record {
        trimmed = record { left = refl; right = refl };
        one_line = refl;
        unquoted = refl;
        fits = omega arith;
      };
      names_filled = refl;
    }

load-save_example : load https (to_text enrolled) ≡ inr enrolled
unfolding save validate validate_server_url
load-save_example = load-save https enrolled (to_text enrolled) enrolled-IsWritable refl

validate-iff_example : (validate https enrolled ≡ none) ↔ (is_valid https enrolled ≡ true)
validate-iff_example = validate_iff https enrolled
