-- ===== src/Tss/Tests.antt =====
-- The descriptor of the task state segment.
use xbay_os.Tss.Descriptor.{limit_of}
use xbay_os.Tss.{make_gdt_desc, tss_init}
use xbay_os.Base.{refl, ◌≡◌}

-- The limits and the attributes of the segments for user programs: 4 GB, present, DPL 3.
user_segments :
    (limit_of ((tss_init (λ i. 0) 0xc012_0000 (λ i. make_gdt_desc 0 0 0 0 0)).1 5) ≡ 0xf_ffff)
    × (((tss_init (λ i. 0) 0xc012_0000 (λ i. make_gdt_desc 0 0 0 0 0)).1 6).attr_low_byte ≡ 0xf2)
unfolding tss_init make_gdt_desc
user_segments = (refl, refl)
