-- ===== src/Merkle/Tests.antt =====
-- The root of ten equal hashes, under a digest that is constant.
use limnifs_py.Prelude.{ℕ, ◌≡◌, refl, arith, length, replicate}
use limnifs_py.Merkle.{Blake3, SectionHashes, merkle_input}
use limnifs_py.Merkle.Binding.{length-merkle_input}

abbrev pub constant_digest : Blake3
constant_digest = record {
  digest = λ bs. replicate 32 0;
  length-digest = λ bs. refl;
  digest-IsByte = λ bs. omega arith;
}

abbrev hashes : ℕ → SectionHashes
hashes n = record {
  metadata = replicate 32 n;
  format_header = replicate 32 1;
  feature_flags = replicate 32 2;
  metadata_reference = replicate 32 3;
  slab_index = replicate 32 4;
  crypto_params = replicate 32 5;
  ec_params = replicate 32 6;
  dms_policy = replicate 32 7;
  delta_linkage = replicate 32 8;
  history = replicate 32 9;
}

length-merkle_input_example : length (merkle_input (hashes 5)) ≡ 330
length-merkle_input_example = length-merkle_input (hashes 5) (omega arith)
