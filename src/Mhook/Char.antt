-- ===== src/Mhook/Char.antt =====
-- The characters of the log of mhook.c, as their codes
use sri_glibc_malloc.Base.{ℕ}

abbrev pub newline : ℕ
newline = 10

abbrev pub space : ℕ
space = 32

abbrev pub digit0 : ℕ
digit0 = 48

abbrev pub c : ℕ
c = 99

abbrev pub e : ℕ
e = 101

abbrev pub f : ℕ
f = 102

abbrev pub i : ℕ
i = 105

abbrev pub m : ℕ
m = 109

abbrev pub r : ℕ
r = 114

abbrev pub x : ℕ
x = 120
